-- ===== src/Ticket/SampleCrates.antt =====
-- Small codecs that behave as `Crates` asks, for the concrete runs.
use Prim.Native.Char.{Char, IsScalar, code}
use text.Mathlib.TextEquality.{Char-path}
use mathlib.Core.Option
use subportal.Prelude.{
  ℕ, zero, suc, String, ◌≡◌, refl, Option, none, some, List, [], ◌∷◌, ◌∙◌, ap, compare, Ordering,
  arith, and_then, str_eq, ◌==◌, if◌then◌else◌,
}
use subportal.Ticket.Crates.{Crates, SocketAddr, v4, v6, IsBytes}

abbrev scalar :
    (n : ℕ) (o p q : Ordering)
    → compare n 55296 ≡ o
    → compare 57343 n ≡ p
    → compare n 1114112 ≡ q
    → Option (IsScalar n)
scalar n Ordering.lt p q e f g = some (rw e tt)
scalar n Ordering.eq Ordering.lt Ordering.lt e f g = some (rw (e, f, g) tt)
scalar n Ordering.gt Ordering.lt Ordering.lt e f g = some (rw (e, f, g) tt)
scalar n _ _ _ e f g = none

abbrev of_code : ℕ → Option Char
of_code n =
    Option.map (Char.char n)
      (scalar n (compare n 55296) (compare 57343 n) (compare n 1114112) refl refl refl)

scalar-IsScalar :
    (n : ℕ) (o p q : Ordering)
    → (e : compare n 55296 ≡ o) → (f : compare 57343 n ≡ p) → (g : compare n 1114112 ≡ q)
    → IsScalar n
    → (x : IsScalar n) × (scalar n o p q e f g ≡ some x)
scalar-IsScalar n Ordering.lt p q e f g h = (_, refl)
scalar-IsScalar n Ordering.eq Ordering.lt Ordering.lt e f g h = (_, refl)
scalar-IsScalar n Ordering.gt Ordering.lt Ordering.lt e f g h = (_, refl)
scalar-IsScalar n Ordering.eq Ordering.lt Ordering.eq e f g h = absurd (rw (e, f, g) at h)
scalar-IsScalar n Ordering.eq Ordering.lt Ordering.gt e f g h = absurd (rw (e, f, g) at h)
scalar-IsScalar n Ordering.gt Ordering.lt Ordering.eq e f g h = absurd (rw (e, f, g) at h)
scalar-IsScalar n Ordering.gt Ordering.lt Ordering.gt e f g h = absurd (rw (e, f, g) at h)
scalar-IsScalar n Ordering.eq Ordering.eq q e f g h = absurd (rw (e, f) at h)
scalar-IsScalar n Ordering.eq Ordering.gt q e f g h = absurd (rw (e, f) at h)
scalar-IsScalar n Ordering.gt Ordering.eq q e f g h = absurd (rw (e, f) at h)
scalar-IsScalar n Ordering.gt Ordering.gt q e f g h = absurd (rw (e, f) at h)

of_code-code : (c : Char) → of_code (code c) ≡ some c
of_code-code (Char.char n h) =
    let s =
      scalar-IsScalar n (compare n 55296) (compare 57343 n) (compare n 1114112) refl refl refl h in
    ap (Option.map (Char.char n)) s.1 ∙ ap some (Char-path (Char.char n s.0) (Char.char n h) refl)

abbrev ones : ℕ → List ℕ → List ℕ
ones zero bytes = bytes
ones (suc n) bytes = 1 ∷ ones n bytes

-- A character is a zero and as many ones as its number says.
abbrev as_bytes : String → List ℕ
as_bytes String.[] = []
as_bytes (String.◌∷◌ c s) = 0 ∷ ones (code c) (as_bytes s)

abbrev put : ℕ → Option String → Option String
put n text = and_then (of_code n) (λ c. Option.map (String.◌∷◌ c) text)

abbrev from_bytes : List ℕ → ℕ × Option String
from_bytes [] = (0, some "")
from_bytes (zero ∷ bytes) = let r = from_bytes bytes in (0, put r.0 r.1)
from_bytes (suc b ∷ bytes) = let r = from_bytes bytes in (suc r.0, r.1)

from_bytes-ones :
    (n : ℕ) (bytes : List ℕ) (text : Option String)
    → from_bytes bytes ≡ (0, text)
    → from_bytes (ones n bytes) ≡ (n, text)
from_bytes-ones zero bytes text h = h
from_bytes-ones (suc n) bytes text h = ap (λ r. (suc r.0, r.1)) (from_bytes-ones n bytes text h)

from_bytes-as_bytes : (s : String) → from_bytes (as_bytes s) ≡ (0, some s)
from_bytes-as_bytes String.[] = refl
from_bytes-as_bytes (String.◌∷◌ c s) =
    ap (λ r. (0, put r.0 r.1))
      (from_bytes-ones (code c) (as_bytes s) (some s) (from_bytes-as_bytes s))
    ∙ ap (λ o. (0, and_then o (λ d. some (String.◌∷◌ d s)))) (of_code-code c)

IsBytes-ones : (n : ℕ) (bytes : List ℕ) → IsBytes bytes → IsBytes (ones n bytes)
IsBytes-ones zero bytes h = h
IsBytes-ones (suc n) bytes h = (omega arith, IsBytes-ones n bytes h)

pub as_bytes-IsBytes : (s : String) → IsBytes (as_bytes s)
as_bytes-IsBytes String.[] = tt
as_bytes-IsBytes (String.◌∷◌ c s) =
    (omega arith, IsBytes-ones (code c) (as_bytes s) (as_bytes-IsBytes s))

pub from_utf8-as_bytes : (s : String) → (from_bytes (as_bytes s)).1 ≡ some s
from_utf8-as_bytes s = ap (λ r. r.1) (from_bytes-as_bytes s)

abbrev crosses : ℕ → String → String
crosses zero s = s
crosses (suc n) s = String.◌∷◌ "x" (crosses n s)

-- A number is an e and as many crosses as it says.
abbrev encode : List ℕ → String
encode [] = ""
encode (n ∷ ns) = String.◌∷◌ "e" (crosses n (encode ns))

abbrev decode : String → ℕ × List ℕ
decode String.[] = (0, [])
decode (String.◌∷◌ c s) =
    let r = decode s in
    if str_eq (String.◌∷◌ c String.[]) "e" then (0, r.0 ∷ r.1) else (suc r.0, r.1)

decode-crosses :
    (n : ℕ) (s : String) (l : List ℕ) → decode s ≡ (0, l) → decode (crosses n s) ≡ (n, l)
decode-crosses zero s l h = h
decode-crosses (suc n) s l h = ap (λ r. (suc r.0, r.1)) (decode-crosses n s l h)

decode-encode : (l : List ℕ) → decode (encode l) ≡ (0, l)
decode-encode [] = refl
decode-encode (n ∷ l) = ap (λ r. (0, r.0 ∷ r.1)) (decode-crosses n (encode l) l (decode-encode l))

pub decode_lem : (l : List ℕ) → some (decode (encode l)).1 ≡ some l
decode_lem l = ap (λ r. some r.1) (decode-encode l)

abbrev numbers : SocketAddr → List ℕ
numbers (v4 octets port) = 4 ∷ port ∷ octets
numbers (v6 octets port flowinfo scope_id) = 6 ∷ port ∷ flowinfo ∷ scope_id ∷ octets

abbrev v6_of_numbers : ℕ → List ℕ → Option SocketAddr
v6_of_numbers port [] = none
v6_of_numbers port (flowinfo ∷ []) = none
v6_of_numbers port (flowinfo ∷ scope_id ∷ octets) = some (v6 octets port flowinfo scope_id)

abbrev of_numbers : List ℕ → Option SocketAddr
of_numbers [] = none
of_numbers (n ∷ []) = none
of_numbers (n ∷ port ∷ octets) = if n == 4 then some (v4 octets port) else v6_of_numbers port octets

of_numbers-numbers : (a : SocketAddr) → of_numbers (numbers a) ≡ some a
of_numbers-numbers (v4 octets port) = refl
of_numbers-numbers (v6 octets port flowinfo scope_id) = refl

pub parse-print : (a : SocketAddr) → of_numbers (decode (encode (numbers a))).1 ≡ some a
parse-print a = ap (λ r. of_numbers r.1) (decode-encode (numbers a)) ∙ of_numbers-numbers a

abbrev pub sample_crates : Crates
sample_crates = record {
  hex_encode = encode;
  hex_decode = λ s. some (decode s).1;
  base45_encode = encode;
  base45_decode = λ s. some (decode s).1;
  as_bytes = as_bytes;
  from_utf8 = λ bytes. (from_bytes bytes).1;
  print_addr = λ a. encode (numbers a);
  parse_addr = λ s. of_numbers (decode s).1;
  hex = λ bytes h. decode_lem bytes;
  base45 = λ bytes h. decode_lem bytes;
  as_bytes-IsBytes = as_bytes-IsBytes;
  utf8 = from_utf8-as_bytes;
  addr = λ a h. parse-print a;
}
