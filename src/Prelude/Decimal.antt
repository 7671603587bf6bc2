-- ===== src/Prelude/Decimal.antt =====
-- Decimal printing of an integer, as `format!("{n}")` does it, and that it loses nothing.
pub mod Parse
use Prim.Native.Nat.{ℕ, zero, suc, ◌+◌, ◌*◌, ◌/◌, ◌%◌, ◌-◌, ◌<◌}
use Prim.Native.Char.{Char, code}
use Prim.Native.String.{String}
use mathlib.Core.Path.{◌≡◌, refl, sym, ap, ◌∙◌}
use mathlib.Core.Logic.{inl, inr}
use mathlib.Core.Bool.{true}
use native.Mathlib.Omega.{arith}
use subportal.Prelude.Tests.{ltb, if◌then◌else◌, Bool-cases}

-- The digit of a number below ten.
unfoldable pub digit : ℕ → Char
digit zero = "0"
digit (suc zero) = "1"
digit (suc (suc zero)) = "2"
digit (suc (suc (suc zero))) = "3"
digit (suc (suc (suc (suc zero)))) = "4"
digit (suc (suc (suc (suc (suc zero))))) = "5"
digit (suc (suc (suc (suc (suc (suc zero)))))) = "6"
digit (suc (suc (suc (suc (suc (suc (suc zero))))))) = "7"
digit (suc (suc (suc (suc (suc (suc (suc (suc zero)))))))) = "8"
digit (suc (suc (suc (suc (suc (suc (suc (suc (suc n))))))))) = "9"

-- The digits of `n` in front of `acc`. `n + 1` rounds are more than enough.
unfoldable pub digits : ℕ → ℕ → String → String
unfolding digit
digits zero n acc = acc
digits (suc fuel) n acc =
    let more = digits fuel (n / 10) (String.◌∷◌ (digit (n % 10)) acc) in
    if ltb n 10 then String.◌∷◌ (digit n) acc else more

unfoldable pub to_decimal : ℕ → String
unfolding digits
to_decimal n = digits (suc n) n String.[]

-- The number that a text of digits stands for.
unfoldable value_from : ℕ → String → ℕ
value_from n String.[] = n
value_from n (String.◌∷◌ c s) = value_from (n * 10 + (code c - 48)) s

code-digit : (n : ℕ) → n < 10 → code (digit n) - 48 ≡ n
unfolding digit
code-digit zero h = refl
code-digit (suc zero) h = refl
code-digit (suc (suc zero)) h = refl
code-digit (suc (suc (suc zero))) h = refl
code-digit (suc (suc (suc (suc zero)))) h = refl
code-digit (suc (suc (suc (suc (suc zero))))) h = refl
code-digit (suc (suc (suc (suc (suc (suc zero)))))) h = refl
code-digit (suc (suc (suc (suc (suc (suc (suc zero))))))) h = refl
code-digit (suc (suc (suc (suc (suc (suc (suc (suc zero)))))))) h = refl
code-digit (suc (suc (suc (suc (suc (suc (suc (suc (suc zero))))))))) h = refl
code-digit (suc (suc (suc (suc (suc (suc (suc (suc (suc (suc n)))))))))) h = absurd (omega arith)

ltb→lt : (a b : ℕ) → ltb a b ≡ true → a < b
ltb→lt a b h = ground arith

value_from-digits :
    (fuel n : ℕ) (acc : String) → n < fuel → value_from 0 (digits fuel n acc) ≡ value_from n acc
unfolding value_from digits
value_from-digits zero n acc h = absurd (omega arith)
value_from-digits (suc fuel) n acc h = elim (Bool-cases (ltb n 10)) [
  | inl p ↦ rw p (ap (λ k. value_from k acc) (omega (arith, code-digit n (ltb→lt n 10 p))))
  | inr p ↦ rw p (
      value_from-digits fuel (n / 10) (String.◌∷◌ (digit (n % 10)) acc) (ground arith)
      ∙ ap (λ k. value_from k acc) (omega (arith, code-digit (n % 10) (omega arith))))
]

-- Different numbers print differently.
pub to_decimal-injective : (n m : ℕ) → to_decimal n ≡ to_decimal m → n ≡ m
unfolding to_decimal value_from
to_decimal-injective n m e =
    sym (value_from-digits (suc n) n String.[] (omega arith))
    ∙ ap (value_from 0) e
    ∙ value_from-digits (suc m) m String.[] (omega arith)
