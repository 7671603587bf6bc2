-- ===== src/Control/Stream.antt =====
-- `write_control` and `read_control` of crates/subportal-iroh/src/control.rs, and the loops that read messages up
-- to an error. How serde_json prints and parses a value is a parameter.
use subportal.Prelude.{
  ℕ, zero, suc, ◌<◌, ◌≤◌, ◌≡◌, refl, ◌∙◌, sym, ap, true, Option, some, List, [], ◌∷◌, ◌++◌, Result,
  ok, err, and_then, length, All, leb, arith,
}
use mathlib.Core.List.{append_assoc, append-nil}
use subportal.Protocol.{max_message_size}
use subportal.Protocol.Json.{Json}
use subportal.Protocol.Frame.{nul, FrameError, closed, read_message, write_message}
use subportal.Protocol.Frame.Laws.{IsPlain, read_message_lem}
use subportal.Control.{ClientHello, ControlMessage}
use subportal.Control.Codec.{
  client_hello_value, control_value, parse_client_hello, parse_control, parse_client_hello_lem,
  parse_control_lem,
}

module _ (j : Json) (print : j.Value → List ℕ) (parse : List ℕ → Option j.Value) where
  unfoldable pub write_control : {T : Type 0} → (T → j.Value) → List ℕ → T → Option (List ℕ)
  unfolding write_message
  write_control to_value written msg = write_message (λ m. some (print (to_value m))) written msg

  unfoldable pub read_control :
      {T : Type 0} → (j.Value → Option T) → List ℕ → Result T FrameError × List ℕ
  unfolding read_message
  read_control from_value stream = read_message (λ body. and_then (parse body) from_value) stream

  unfoldable pub write_messages : List ControlMessage → List ℕ → Option (List ℕ)
  unfolding write_control
  write_messages [] written = some written
  write_messages (msg ∷ msgs) written =
      and_then (write_control (control_value j) written msg) (write_messages msgs)

  -- The messages up to an error, on one more round than there are messages.
  unfoldable pub read_messages : ℕ → List ℕ → List ControlMessage
  unfolding read_control
  read_messages zero stream = []
  read_messages (suc fuel) stream =
      let (msg, rest) = read_control (parse_control j) stream in
      let later = read_messages fuel rest in elim msg [ ok m ↦ m ∷ later | err e ↦ [] ]

  -- A value that is printed without a NUL byte and within the limit, and parsed from that.
  abbrev IsSent : j.Value → Type 0
  IsSent v = (parse (print v) ≡ some v) × IsPlain (print v) × (length (print v) ≤ max_message_size)

  frames : List ControlMessage → List ℕ
  frames [] = []
  frames (msg ∷ msgs) = print (control_value j msg) ++ (nul ∷ frames msgs)

  read_frame :
      {T : Type 0} (from_value : j.Value → Option T) (v : j.Value) (msg : T) (rest : List ℕ)
      → IsSent v
      → from_value v ≡ some msg
      → read_control from_value (print v ++ (nul ∷ rest)) ≡ (ok msg, rest)
  unfolding read_control
  read_frame from_value v msg rest (p, q, l) e =
      (read_message_lem (λ body. and_then (parse body) from_value) (print v) rest q).0
      ∙ rw (within (length (print v)) l, p, e) refl
    where
      within : (n : ℕ) → n ≤ max_message_size → leb n max_message_size ≡ true
      within n h = ground arith

  read_round :
      (fuel : ℕ) (stream : List ℕ) (r : Result ControlMessage FrameError × List ℕ)
      → read_control (parse_control j) stream ≡ r
      → read_messages (suc fuel) stream
        ≡ (elim r.0 [ ok m ↦ m ∷ read_messages fuel r.1 | err e ↦ [] ])
  unfolding read_messages read_control
  read_round fuel stream r e =
      ap
        (λ (q : Result ControlMessage FrameError × List ℕ). elim q.0 [
          | ok m ↦ m ∷ read_messages fuel q.1
          | err e ↦ []
        ])
        e

  at_end : read_control (parse_control j) [] ≡ (err closed, [])
  unfolding read_control
  at_end = (read_message_lem (λ body. and_then (parse body) (parse_control j)) [] [] tt).1

  read_frames :
      (msgs : List ControlMessage) (fuel : ℕ)
      → All (λ m. IsSent (control_value j m)) msgs
      → length msgs < fuel
      → read_messages fuel (frames msgs) ≡ msgs
  unfolding frames
  read_frames msgs zero h l = absurd (omega arith)
  read_frames [] (suc fuel) h l = read_round fuel [] (err closed, []) at_end
  read_frames (msg ∷ msgs) (suc fuel) h l =
      read_round fuel (frames (msg ∷ msgs)) (ok msg, frames msgs)
        (read_frame (parse_control j) (control_value j msg) msg (frames msgs) h.0
          (parse_control_lem j msg))
      ∙ ap (◌∷◌ msg) (read_frames msgs fuel h.1 (omega arith))

  write_frames :
      (msgs : List ControlMessage) (written : List ℕ)
      → write_messages msgs written ≡ some (written ++ frames msgs)
  unfolding write_messages frames write_control write_message
  write_frames [] written = ap some (sym (append-nil written))
  write_frames (msg ∷ msgs) written =
      let body = print (control_value j msg) in
      write_frames msgs (written ++ (body ++ (nul ∷ [])))
      ∙ ap some (
          append_assoc written (body ++ (nul ∷ [])) (frames msgs)
          ∙ ap (λ l. written ++ l) (append_assoc body (nul ∷ []) (frames msgs)))

  -- A client's hello and its messages, written one after the other: the hello is read back, and the reader
  -- that goes on up to the end of the stream has exactly the messages, in order, where it is let run one
  -- round more than there are messages. Each value is printed without a NUL byte and within the size
  -- limit, and parsed from that.
  pub read_messages-write_messages :
      (hello : ClientHello) (msgs : List ControlMessage) (fuel : ℕ)
      → IsSent (client_hello_value j hello)
      → All (λ m. IsSent (control_value j m)) msgs
      → length msgs < fuel
      → (stream rest : List ℕ) × (and_then
            (write_control (client_hello_value j) [] hello)
            (write_messages msgs)
          ≡ some stream)
        × (read_control (parse_client_hello j) stream ≡ (ok hello, rest))
        × (read_messages fuel rest ≡ msgs)
  unfolding write_control write_message
  read_messages-write_messages hello msgs fuel s h l = (
    print (client_hello_value j hello) ++ (nul ∷ frames msgs),
    frames msgs,
    write_frames msgs (print (client_hello_value j hello) ++ (nul ∷ []))
        ∙ ap some (append_assoc (print (client_hello_value j hello)) (nul ∷ []) (frames msgs)),
    read_frame (parse_client_hello j) (client_hello_value j hello) hello (frames msgs) s
        (parse_client_hello_lem j hello),
    read_frames msgs fuel h l,
  )
