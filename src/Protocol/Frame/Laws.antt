-- ===== src/Protocol/Frame/Laws.antt =====
-- What reading a message returns, for every stream, and what it leaves.
use subportal.Prelude.{
  ℕ, zero, suc, ◌+◌, ◌≤◌, ◌<◌, ◌≡◌, ◌≢◌, refl, ap, true, false, Option, none, some, List, [], ◌∷◌,
  ◌++◌, if◌then◌else◌, ok, err, or_err, length, All, arith, inl, inr, Bool-cases, take, drop, leb,
}
use mathlib.Core.List.{append_assoc, append-nil}
use mathlib.Core.Path.{◌∙◌, subst}
use subportal.Protocol.{max_message_size}
use subportal.Protocol.Frame.{
  nul, too_large, closed, bad_json, read_until, strip_nul, read_limited, read_message,
  write_message,
}

-- Bytes with no delimiter among them.
abbrev pub IsPlain : List ℕ → Type 0
IsPlain = All (λ b. b ≢ nul)

read_until_frame :
    (limit : ℕ) (body rest : List ℕ)
    → IsPlain body
    → length body < limit
    → read_until limit (body ++ (nul ∷ rest)) ≡ (body ++ (nul ∷ []), rest)
unfolding read_until
read_until_frame zero body rest p h = absurd (omega arith)
read_until_frame (suc limit) [] rest p h = refl
read_until_frame (suc limit) (b ∷ body) rest p h =
    ground (arith, read_until_frame limit body rest p.1)

read_until_long :
    (limit : ℕ) (body rest : List ℕ)
    → IsPlain body
    → limit ≤ length body
    → read_until limit (body ++ rest) ≡ (take limit body, drop limit body ++ rest)
unfolding read_until
read_until_long zero body rest p h = refl
read_until_long (suc limit) [] rest p h = absurd (omega arith)
read_until_long (suc limit) (b ∷ body) rest p h =
    ground (arith, read_until_long limit body rest p.1)

read_until_end :
    (limit : ℕ) (body : List ℕ)
    → IsPlain body
    → length body < limit
    → read_until limit body ≡ (body, [])
unfolding read_until
read_until_end zero body p h = absurd (omega arith)
read_until_end (suc limit) [] p h = refl
read_until_end (suc limit) (b ∷ body) p h = ground (arith, read_until_end limit body p.1)

strip_nul_frame : (body : List ℕ) → strip_nul (body ++ (nul ∷ [])) ≡ some body
unfolding strip_nul
strip_nul_frame [] = refl
strip_nul_frame (b ∷ []) = refl
strip_nul_frame (b ∷ c ∷ body) = rw (strip_nul_frame (c ∷ body))

strip_nul_plain : (body : List ℕ) → IsPlain body → strip_nul body ≡ none
unfolding strip_nul
strip_nul_plain [] p = refl
strip_nul_plain (b ∷ []) p = ground arith
strip_nul_plain (b ∷ c ∷ body) p = rw (strip_nul_plain (c ∷ body) p.1)

length-take_le : (n : ℕ) (body : List ℕ) → n ≤ length body → length (take n body) ≡ n
length-take_le zero body h = refl
length-take_le (suc n) [] h = absurd (omega arith)
length-take_le (suc n) (b ∷ body) h = ap suc (length-take_le n body (omega arith))

take-IsPlain : (n : ℕ) (body : List ℕ) → IsPlain body → IsPlain (take n body)
take-IsPlain zero body p = tt
take-IsPlain (suc n) [] p = tt
take-IsPlain (suc n) (b ∷ body) p = (p.0, take-IsPlain n body p.1)

module _ {T : Type 0} (from_slice : List ℕ → Option T) (limit : ℕ) where
  -- The delimiter is found where the body fits the limit.
  read_limited_frame :
      (body rest : List ℕ)
      → IsPlain body
      → length body ≤ limit
      → read_limited from_slice limit (body ++ (nul ∷ rest))
        ≡ (or_err (from_slice body) bad_json, rest)
  unfolding read_limited
  read_limited_frame body rest p h =
      rw (read_until_frame (limit + 1) body rest p (omega arith), strip_nul_frame body)

  read_limited_long :
      (body rest : List ℕ)
      → IsPlain body
      → limit < length body
      → read_limited from_slice limit (body ++ rest)
        ≡ (err too_large, drop (limit + 1) body ++ rest)
  unfolding read_limited
  read_limited_long body rest p h =
      rw
        (
          read_until_long (limit + 1) body rest p (omega arith),
          strip_nul_plain _ (take-IsPlain (limit + 1) body p),
          length-take_le (limit + 1) body (omega arith),
        )
        (ground arith)

  read_limited_end :
      (body : List ℕ)
      → IsPlain body
      → length body ≤ limit
      → read_limited from_slice limit body ≡ (err closed, [])
  unfolding read_limited
  read_limited_end body p h =
      rw (read_until_end (limit + 1) body p (omega arith), strip_nul_plain _ p) (ground arith)

module _ {T : Type 0} (from_slice : List ℕ → Option T) where
  over_limit :
      (body : List ℕ) → leb (length body) max_message_size ≡ false → max_message_size < length body
  over_limit body h = ground arith

  within_limit :
      (body : List ℕ) → leb (length body) max_message_size ≡ true → length body ≤ max_message_size
  within_limit body h = ground arith

  -- For a body without a delimiter: if it is followed by a delimiter, then `read_message` decodes it
  -- and leaves what comes behind exactly if it has at most `MAX_MESSAGE_SIZE` bytes, and else stops
  -- with the size error one byte past the limit. If the stream ends behind the body, then the error
  -- is that of a closed connection, or the size error where the limit is passed.
  pub read_message_lem :
      (body rest : List ℕ)
      → IsPlain body
      → (read_message from_slice (body ++ (nul ∷ rest)) ≡ (
          if leb (length body) max_message_size
          then (or_err (from_slice body) bad_json, rest)
          else (err too_large, drop (max_message_size + 1) body ++ (nul ∷ rest))))
        × (read_message from_slice body ≡ (
            if leb (length body) max_message_size
            then (err closed, [])
            else (err too_large, drop (max_message_size + 1) body)))
  unfolding read_message
  read_message_lem body rest p = elim (Bool-cases (leb (length body) max_message_size)) [
    | inl e ↦ (
      rw e (read_limited_frame from_slice max_message_size body rest p (within_limit body e)),
      rw e (read_limited_end from_slice max_message_size body p (within_limit body e)),
    )
    | inr e ↦ (
      rw e (read_limited_long from_slice max_message_size body (nul ∷ rest) p (over_limit body e)),
      rw e (long_end e),
    )
  ]
    where
      long_end :
          leb (length body) max_message_size ≡ false
          → read_limited from_slice max_message_size body
            ≡ (err too_large, drop (max_message_size + 1) body)
      long_end e =
          subst
            (λ b.
              read_limited from_slice max_message_size b
              ≡ (err too_large, drop (max_message_size + 1) body))
            (append-nil body)
            (read_limited_long from_slice max_message_size body [] p (over_limit body e)
              ∙ ap (λ r. (err too_large, r)) (append-nil _))

  -- A message whose encoding is a body without a NUL byte, of at most the maximal size, that decodes to
  -- the message, is written as a frame behind what was written before; reading the frame gives the
  -- message and leaves what comes behind.
  read_message-write_message :
      (to_vec : T → Option (List ℕ)) (msg : T) (written rest : List ℕ) {body : List ℕ}
      → to_vec msg ≡ some body
      → from_slice body ≡ some msg
      → IsPlain body
      → length body ≤ max_message_size
      → (frame : List ℕ) × (write_message to_vec written msg ≡ some (written ++ frame))
        × (read_message from_slice (frame ++ rest) ≡ (ok msg, rest))
  unfolding read_message write_message
  read_message-write_message to_vec msg written rest {body} e d p h = (
    body ++ (nul ∷ []),
    rw e,
    rw (append_assoc body (nul ∷ []) rest)
        (read_limited_frame from_slice max_message_size body rest p h ∙ ap (λ r. (r, rest)) (rw d)),
  )
