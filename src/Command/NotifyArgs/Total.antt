-- ===== src/Command/NotifyArgs/Total.antt =====
-- The loop of `parse_args` ends.
use subportal.Prelude.{
  ℕ, zero, suc, ◌+◌, ◌<◌, String, ◌≡◌, refl, Option, none, some, List, [], ◌∷◌, length, get_elem?,
  arith, Option-cases, inl, inr,
}
use subportal.Command.NotifyArgs.{
  Parsed, Kind, help, version, urgency_flag, icon_flag, valued, ignored, word, urgency_is, icon_is,
  kind, Loop, Round, stop, next, round, finish, parse_loop, parse_args, start,
}

get_elem?-lt : {A : Type 0} (xs : List A) (i : ℕ) (x : A) → get_elem? xs i ≡ some x → i < length xs
get_elem?-lt [] i x e = cc
get_elem?-lt (y ∷ xs) zero x e = omega arith
get_elem?-lt (y ∷ xs) (suc i) x e = omega (arith, get_elem?-lt xs i x e)

-- Every round goes on behind its argument.
abbrev GoesOn : ℕ → Round → Type 0
GoesOn i (stop p) = Unit
GoesOn i (next l) = i < l.i

round-GoesOn :
    (argv : List String) (l : Loop) (arg : String) (k : Kind) → GoesOn l.i (round argv l arg k)
unfolding round
round-GoesOn argv l arg help = tt
round-GoesOn argv l arg version = tt
round-GoesOn argv l arg urgency_flag = omega arith
round-GoesOn argv l arg icon_flag = omega arith
round-GoesOn argv l arg valued = omega arith
round-GoesOn argv l arg ignored = omega arith
round-GoesOn argv l arg word = omega arith
round-GoesOn argv l arg (urgency_is val) = omega arith
round-GoesOn argv l arg (icon_is val) = omega arith

-- A round ends the parse, or the loop goes on.
abbrev pub after : ℕ → List String → Round → Option Parsed
after fuel argv (stop parsed) = some parsed
after fuel argv (next l) = parse_loop fuel argv l

pub parse_loop_end :
    (fuel : ℕ) (argv : List String) (l : Loop)
    → get_elem? argv l.i ≡ none
    → parse_loop (suc fuel) argv l ≡ some (finish l.positional l.urgency l.icon)
unfolding parse_loop
parse_loop_end fuel argv l e = rw (e, parse_loop) refl

pub parse_loop_step :
    (fuel : ℕ) (argv : List String) (l : Loop) (arg : String) (k : Kind)
    → get_elem? argv l.i ≡ some arg
    → kind arg ≡ k
    → parse_loop (suc fuel) argv l ≡ after fuel argv (round argv l arg k)
unfolding parse_loop
parse_loop_step fuel argv l arg k e q = rw (e, parse_loop, q) (go (round argv l arg k))
  where
    go :
        (r : Round)
        → (elim r [ stop parsed ↦ some parsed | next l' ↦ parse_loop fuel argv l' ])
          ≡ after fuel argv r
    go (stop parsed) = refl
    go (next l') = refl

after_total :
    (fuel : ℕ) (argv : List String) (i : ℕ) (r : Round)
    → GoesOn i r
    → ((l : Loop) → i < l.i → (p : Parsed) × (parse_loop fuel argv l ≡ some p))
    → (p : Parsed) × (after fuel argv r ≡ some p)
after_total fuel argv i (stop parsed) h rest = (parsed, refl)
after_total fuel argv i (next l) h rest = rest l h

-- Fuel beyond the arguments that are left is enough.
parse_loop_total :
    (fuel : ℕ) (argv : List String) (l : Loop)
    → length argv < l.i + fuel
    → 0 < fuel
    → (p : Parsed) × (parse_loop fuel argv l ≡ some p)
parse_loop_total zero argv l h k = absurd (omega (arith, k))
parse_loop_total (suc fuel) argv l h k = elim (Option-cases (get_elem? argv l.i)) [
  | inl e ↦ (finish l.positional l.urgency l.icon, parse_loop_end fuel argv l e)
  | inr (arg, e) ↦
      let inside : l.i < length argv = get_elem?-lt argv l.i arg e in
      rw (parse_loop_step fuel argv l arg (kind arg) e refl) (
        after_total fuel argv l.i (round argv l arg (kind arg)) (round-GoesOn argv l arg (kind arg))
          (λ l' step.
            parse_loop_total fuel argv l' (omega (arith, h, inside, step))
              (omega (arith, h, inside))))
]

-- Every command line is parsed: the rounds of the loop, one more than there are arguments, are enough.
pub parse_args_total : (argv : List String) → (p : Parsed) × (parse_args argv ≡ some p)
unfolding parse_args
parse_args_total argv = parse_loop_total (suc (length argv)) argv start (omega arith) (omega arith)
