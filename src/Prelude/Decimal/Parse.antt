-- ===== src/Prelude/Decimal/Parse.antt =====
-- `s.trim().parse::<u32>()`, and that it reads what `to_decimal` prints.
use Prim.Native.Nat.{ℕ, zero, suc, ◌/◌, ◌%◌, ◌<◌}
use Prim.Native.Char.{Char, code}
use Prim.Native.String.{String}
use mathlib.Core.Path.{◌≡◌, refl, ap, ◌∙◌}
use mathlib.Core.Logic.{inl, inr}
use mathlib.Core.Bool.{Bool, true, false, not, ◌&&◌, ◌||◌}
use mathlib.Core.Option.{Option, none, some}
use native.Mathlib.Omega.{arith}
use subportal.Prelude.Tests.{ltb, leb, if◌then◌else◌, Bool-cases, ◌==◌}
use subportal.Prelude.Decimal.{digit, digits, to_decimal, value_from, value_from-digits}

-- `char::is_whitespace` on ASCII.
abbrev is_space : Char → Bool
is_space c = (leb 9 (code c) && leb (code c) 13) || (code c == 32)

abbrev is_digit : Char → Bool
is_digit c = leb 48 (code c) && leb (code c) 57

is_empty : String → Bool
is_empty String.[] = true
is_empty (String.◌∷◌ c s) = false

trim_start : String → String
trim_start String.[] = String.[]
trim_start (String.◌∷◌ c s) = if is_space c then trim_start s else String.◌∷◌ c s

trim_end : String → String
unfolding is_empty
trim_end String.[] = String.[]
trim_end (String.◌∷◌ c s) =
    let rest = trim_end s in if is_space c && is_empty rest then String.[] else String.◌∷◌ c rest

all_digits : String → Bool
all_digits String.[] = true
all_digits (String.◌∷◌ c s) = is_digit c && all_digits s

-- The digits of a number below 2^32.
parse_digits : String → Option ℕ
unfolding is_empty all_digits value_from
parse_digits s =
    if is_empty s || not (all_digits s)
    then none
    else (if ltb (value_from 0 s) 4294967296 then some (value_from 0 s) else none)

-- A sign may stand in front.
parse_signed : String → Option ℕ
unfolding parse_digits
parse_signed String.[] = none
parse_signed (String.◌∷◌ c s) =
    if code c == 43 then parse_digits s else parse_digits (String.◌∷◌ c s)

unfoldable pub parse_u32 : String → Option ℕ
unfolding parse_signed trim_start trim_end
parse_u32 s = parse_signed (trim_end (trim_start s))

is_digit-digit : (n : ℕ) → n < 10 → is_digit (digit n) ≡ true
unfolding digit
is_digit-digit zero h = refl
is_digit-digit (suc zero) h = refl
is_digit-digit (suc (suc zero)) h = refl
is_digit-digit (suc (suc (suc zero))) h = refl
is_digit-digit (suc (suc (suc (suc zero)))) h = refl
is_digit-digit (suc (suc (suc (suc (suc zero))))) h = refl
is_digit-digit (suc (suc (suc (suc (suc (suc zero)))))) h = refl
is_digit-digit (suc (suc (suc (suc (suc (suc (suc zero))))))) h = refl
is_digit-digit (suc (suc (suc (suc (suc (suc (suc (suc zero)))))))) h = refl
is_digit-digit (suc (suc (suc (suc (suc (suc (suc (suc (suc n))))))))) h = refl

-- Only digits, and one at least.
abbrev IsNumeral : String → Type 0
IsNumeral s = (is_empty s ≡ false) × (all_digits s ≡ true)

cons-IsNumeral :
    (c : Char) (s : String) → is_digit c ≡ true → all_digits s ≡ true → IsNumeral (String.◌∷◌ c s)
unfolding is_empty all_digits
cons-IsNumeral c s h k = (refl, rw (h, k) refl)

digits-IsNumeral :
    (fuel n : ℕ) (acc : String) → all_digits acc ≡ true → IsNumeral (digits (suc fuel) n acc)
unfolding digits
digits-IsNumeral zero n acc h = elim (Bool-cases (ltb n 10)) [
  | inl p ↦ rw p (cons-IsNumeral (digit n) acc (is_digit-digit n (ground arith)) h)
  | inr p ↦ rw p (cons-IsNumeral (digit (n % 10)) acc (is_digit-digit (n % 10) (omega arith)) h)
]
digits-IsNumeral (suc fuel) n acc h = elim (Bool-cases (ltb n 10)) [
  | inl p ↦ rw p (cons-IsNumeral (digit n) acc (is_digit-digit n (ground arith)) h)
  | inr p ↦
      let more = cons-IsNumeral (digit (n % 10)) acc (is_digit-digit (n % 10) (omega arith)) h in
      rw p (digits-IsNumeral fuel (n / 10) (String.◌∷◌ (digit (n % 10)) acc) more.1)
]

digit_not_space : (c : Char) → is_digit c ≡ true → is_space c ≡ false
digit_not_space c h = ground arith

digit_not_sign : (c : Char) → is_digit c ≡ true → (code c == 43) ≡ false
digit_not_sign c h = ground arith

and_split : (a b : Bool) → (a && b) ≡ true → (a ≡ true) × (b ≡ true)
and_split a b h = (ground arith, ground arith)

trim_end-digits : (s : String) → all_digits s ≡ true → trim_end s ≡ s
unfolding trim_end all_digits
trim_end-digits String.[] h = refl
trim_end-digits (String.◌∷◌ c s) h =
    let both = and_split (is_digit c) (all_digits s) h in
    rw (digit_not_space c both.0, trim_end-digits s both.1) refl

parse_u32-numeral : (s : String) → IsNumeral s → parse_u32 s ≡ parse_digits s
unfolding parse_u32 parse_signed trim_start all_digits is_empty
parse_u32-numeral String.[] (h, k) = cc
parse_u32-numeral (String.◌∷◌ c s) (h, k) =
    let both = and_split (is_digit c) (all_digits s) k in
    rw (digit_not_space c both.0)
      (ap parse_signed (trim_end-digits (String.◌∷◌ c s) k) ∙ rw (digit_not_sign c both.0) refl)

-- A number of 32 bits is read from its decimal text.
pub parse_u32-to_decimal : (n : ℕ) → n < 4294967296 → parse_u32 (to_decimal n) ≡ some n
unfolding parse_digits to_decimal
parse_u32-to_decimal n h =
    let numeral = digits-IsNumeral n n String.[] refl in
    parse_u32-numeral (to_decimal n) numeral
    ∙ rw (numeral.0, numeral.1, value_from-digits (suc n) n String.[] (omega arith)) (in_range n h)
  where
    in_range : (m : ℕ) → m < 4294967296 → (if ltb m 4294967296 then some m else none) ≡ some m
    in_range m k = ground arith
