-- ===== src/Protocol/Frame.antt =====
-- NUL-delimited messages over a byte stream: `read_message` and `write_message` of
-- crates/subportal-lib/src/protocol.rs. A stream is the bytes that are still to be read.
pub mod Laws
use subportal.Prelude.{
  ℕ, zero, suc, ◌+◌, ◌≡◌, ◌≢◌, Bool, true, false, Option, none, some, List, [], ◌∷◌, ◌++◌, ltb,
  ◌==◌, if◌then◌else◌, Result, ok, err, ◌>>=◌, or_err, length, All,
}
use mathlib.Core.Option
use subportal.Protocol.{max_message_size}

-- `const NUL`
abbrev pub nul : ℕ
nul = 0

pub data FrameError : Type 0 where
  too_large closed bad_json : FrameError

-- `take(limit).read_until(NUL, &mut buf)`: what is read, the delimiter with it, and what is left.
unfoldable pub read_until : ℕ → List ℕ → List ℕ × List ℕ
read_until zero stream = ([], stream)
read_until (suc limit) [] = ([], [])
read_until (suc limit) (b ∷ stream) =
    let more = read_until limit stream in
    if b == nul then (b ∷ [], stream) else (b ∷ more.0, more.1)

-- `if buf.last() == Some(&NUL) { buf.pop(); }`: the bytes before a final delimiter.
unfoldable pub strip_nul : List ℕ → Option (List ℕ)
strip_nul [] = none
strip_nul (b ∷ []) = if b == nul then some [] else none
strip_nul (b ∷ c ∷ bs) = Option.map (◌∷◌ b) (strip_nul (c ∷ bs))

module _ {T : Type 0} (from_slice : List ℕ → Option T) where
  decode_frame : ℕ → List ℕ → Option (List ℕ) → Result T FrameError
  decode_frame limit buf (some body) = or_err (from_slice body) bad_json
  decode_frame limit buf none = if ltb limit (length buf) then err too_large else err closed

  -- The message, and the stream behind it.
  unfoldable pub read_limited : ℕ → List ℕ → Result T FrameError × List ℕ
  unfolding decode_frame
  read_limited limit stream =
      let (buf, rest) = read_until (limit + 1) stream in
      (decode_frame limit buf (strip_nul buf), rest)

  unfoldable pub read_message : List ℕ → Result T FrameError × List ℕ
  read_message = read_limited max_message_size

-- `serde_json::to_vec(msg)?`, then the bytes and the delimiter at the end of what was written.
unfoldable pub write_message : {T : Type 0} → (T → Option (List ℕ)) → List ℕ → T → Option (List ℕ)
write_message to_vec written msg = Option.map (λ body. written ++ (body ++ (nul ∷ []))) (to_vec msg)
