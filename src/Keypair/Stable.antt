-- ===== src/Keypair/Stable.antt =====
-- An endpoint keeps its key.
use subportal.Prelude.{
  ℕ, ◌≡◌, refl, sym, ap, ◌∙◌, Bool, true, false, Option, none, some, List, length, ◌==◌, Result, ok,
  err, Bool-cases, inl, inr,
}
use subportal.Keypair.{
  KeyFile, WriteEnd, written, write_failed, Io, KeyError, private_mode, read_failed, invalid_length,
  no_dir, not_written, no_permissions, from_data, restrict, write_key, write_in, load_from,
  load_or_generate_keypair,
}

-- The key is the content of its file, and has the length of a key.
abbrev Holds : List ℕ → KeyFile → Type 0
Holds key file = (file.content ≡ some key) × ((length key == 32) ≡ true)

abbrev pub mode_behind : Option (List ℕ) → Option ℕ → Option ℕ
mode_behind none mode = some private_mode
mode_behind (some bytes) mode = mode

value_of : Result (List ℕ) KeyError → List ℕ → List ℕ
value_of (ok key) other = key
value_of (err e) other = other

same_key : (r : Result (List ℕ) KeyError) (a b : List ℕ) → r ≡ ok a → r ≡ ok b → a ≡ b
unfolding value_of
same_key r a b p q = ap (λ x. value_of x a) (sym p ∙ q)

no_key : (r : Result (List ℕ) KeyError) (e : KeyError) (key : List ℕ) → r ≡ err e → r ≡ ok key → ⊥
no_key r e key p q = cc

from_data-Holds :
    (bytes key : List ℕ) (file : KeyFile)
    → file.content ≡ some bytes
    → from_data bytes ≡ ok key
    → Holds key file
unfolding from_data
from_data-Holds bytes key file c e = elim (Bool-cases (length bytes == 32)) [
  | inl p ↦
      let same = same_key (ok bytes) bytes key refl (rw p at e) in
      (c ∙ ap some same, ap (λ k. length k == 32) (sym same) ∙ p)
  | inr p ↦ absurd (no_key (err invalid_length) invalid_length key refl (rw p at e))
]

write_key-Holds :
    (io : Io) (key : List ℕ) (file : KeyFile) (end : WriteEnd)
    → (length io.generated == 32) ≡ true
    → (write_key io io.generated end).0 ≡ ok key
    → Holds key (write_key io io.generated end).1
      × ((write_key io io.generated end).1.mode ≡ some private_mode)
unfolding write_key restrict
write_key-Holds io key file (write_failed none) g e =
    absurd (no_key (err not_written) not_written key refl e)
write_key-Holds io key file (write_failed (some left)) g e =
    absurd (no_key (err not_written) not_written key refl e)
write_key-Holds io key file written g e = elim (Bool-cases io.sets_permissions) [
  | inl p ↦
      let same = same_key (ok io.generated) io.generated key refl (rw p at e) in
      rw p ((ap some same, ap (λ k. length k == 32) (sym same) ∙ g), refl)
  | inr p ↦ absurd (no_key (err no_permissions) no_permissions key refl (rw p at e))
]

write_in-Holds :
    (io : Io) (key : List ℕ) (file : KeyFile) (creates_dir : Bool)
    → (length io.generated == 32) ≡ true
    → (write_in io creates_dir file).0 ≡ ok key
    → Holds key (write_in io creates_dir file).1
      × ((write_in io creates_dir file).1.mode ≡ some private_mode)
unfolding write_in
write_in-Holds io key file true g e = write_key-Holds io key file io.write_end g e
write_in-Holds io key file false g e = absurd (no_key (err no_dir) no_dir key refl e)

load_from-Holds :
    (io : Io) (key : List ℕ) (file : KeyFile) (o : Option (List ℕ))
    → file.content ≡ o
    → (length io.generated == 32) ≡ true
    → (load_from io o file).0 ≡ ok key
    → Holds key (load_from io o file).1 × ((load_from io o file).1.mode ≡ mode_behind o file.mode)
unfolding load_from
load_from-Holds io key file (some bytes) c g e = elim (Bool-cases io.reads) [
  | inl p ↦ rw p (from_data-Holds bytes key file c (rw p at e), refl)
  | inr p ↦ absurd (no_key (err read_failed) read_failed key refl (rw p at e))
]
load_from-Holds io key file none c g e = write_in-Holds io key file io.creates_dir g e

reload :
    (later : Io) (key : List ℕ) (file : KeyFile)
    → later.reads ≡ true
    → Holds key file
    → load_or_generate_keypair later file ≡ (ok key, file)
unfolding load_or_generate_keypair load_from from_data
reload later key file r (c, l) = rw (c, r, l) refl

-- A key that is given out once is given out by every later call that can read the file, and the file
-- stays as it is; where the file was not there before, only its owner may read and write it, and else its
-- permissions are as they were. The generated keys have 32 bytes.
pub load_or_generate_keypair_stable :
    (io later : Io) (file : KeyFile) (key : List ℕ)
    → (length io.generated == 32) ≡ true
    → later.reads ≡ true
    → (load_or_generate_keypair io file).0 ≡ ok key
    → (load_or_generate_keypair later (load_or_generate_keypair io file).1
        ≡ (ok key, (load_or_generate_keypair io file).1))
      × ((load_or_generate_keypair io file).1.mode ≡ mode_behind file.content file.mode)
unfolding load_or_generate_keypair
load_or_generate_keypair_stable io later file key g r e =
    let held = load_from-Holds io key file file.content refl g e in
    (reload later key (load_from io file.content file).1 r held.0, held.1)
