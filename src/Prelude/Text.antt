-- ===== src/Prelude/Text.antt =====
-- Texts as the standard library of Rust reads them: prefixes, characters and joins.
use Prim.Native.Char.{code}
use Prim.Native.String.append
use Prim.Native.String.{String, ◌++◌ as str_append}
use text.Mathlib.Text.{◌==◌ as str_eq}
use text.Mathlib.TextEquality.{eq_iff}
use text.Mathlib.TextPositions.{eq_refl}
use mathlib.Core.Path.{◌≡◌, refl, sym, ap, subst}
use mathlib.Core.Logic.{inl, inr}
use mathlib.Core.Bool.{Bool, true, false, ◌||◌}
use mathlib.Core.Option.{Option, none, some}
use mathlib.Core.List.{List, [], ◌∷◌}
use native.Mathlib.Omega.{arith}
use Prim.Native.Nat.{ℕ}
use subportal.Prelude.Tests.{if◌then◌else◌, ◌==◌, Bool-cases}
use subportal.Prelude.Lists.{any}

-- The characters of a text.
abbrev pub codes : String → List ℕ
codes String.[] = []
codes (String.◌∷◌ c s) = code c ∷ codes s

-- `str::strip_prefix`
unfoldable pub strip_prefix : String → String → Option String
strip_prefix String.[] s = some s
strip_prefix (String.◌∷◌ c p) String.[] = none
strip_prefix (String.◌∷◌ c p) (String.◌∷◌ d s) =
    let rest = strip_prefix p s in
    if str_eq (String.◌∷◌ c String.[]) (String.◌∷◌ d String.[]) then rest else none

pub strip_prefix-append : (p s : String) → strip_prefix p (str_append p s) ≡ some s
unfolding strip_prefix
strip_prefix-append String.[] s = ap some (append.nil s)
strip_prefix-append (String.◌∷◌ c p) s =
    subst (λ t. strip_prefix (String.◌∷◌ c p) t ≡ some s) (sym (append.cons c p s))
      (rw (eq_refl (String.◌∷◌ c String.[])) (strip_prefix-append p s))

abbrev pub is_some {ℓ} : {A : Type ℓ} → Option A → Bool
is_some none = false
is_some (some a) = true

-- `str::starts_with`
abbrev pub starts_with : String → String → Bool
starts_with s p = is_some (strip_prefix p s)

-- `str::contains` on a character.
abbrev pub contains : String → ℕ → Bool
contains s c = any (λ d. d == c) (codes s)

-- `[T]::join(" ")`
unfoldable pub join : String → List String → String
join sep [] = ""
join sep (s ∷ []) = s
join sep (s ∷ t ∷ l) = str_append s (str_append sep (join sep (t ∷ l)))

-- A `match` on several texts.
abbrev pub is_one_of : String → List String → Bool
is_one_of s l = any (λ t. str_eq s t) l

-- A text is none of those that read otherwise.
pub is_one_of_ne {ℓ} :
    {A : Type ℓ} (f : String → A) (t : A → Bool) (s : String) (l : List String)
    → t (f s) ≡ true
    → any (λ x. t (f x)) l ≡ false
    → is_one_of s l ≡ false
is_one_of_ne f t s [] h k = refl
is_one_of_ne f t s (x ∷ l) h k =
    ground (
      arith,
      is_one_of_ne f t s l h,
      λ (e : str_eq s x ≡ true). ap (λ y. t (f y)) ((eq_iff s x).0 e),
    )

-- The two prefixes differ at a character.
abbrev clash : String → String → Bool
clash String.[] q = false
clash (String.◌∷◌ c p) String.[] = false
clash (String.◌∷◌ c p) (String.◌∷◌ d q) =
    let rest = clash p q in
    if str_eq (String.◌∷◌ c String.[]) (String.◌∷◌ d String.[]) then rest else true

pub strip_prefix-append_clash :
    (p q s : String) → clash p q ≡ true → strip_prefix p (str_append q s) ≡ none
unfolding strip_prefix
strip_prefix-append_clash String.[] q s h = cc
strip_prefix-append_clash (String.◌∷◌ c p) String.[] s h = cc
strip_prefix-append_clash (String.◌∷◌ c p) (String.◌∷◌ d q) s h =
    subst (λ t. strip_prefix (String.◌∷◌ c p) t ≡ none) (sym (append.cons d q s))
      (elim (Bool-cases (str_eq (String.◌∷◌ c String.[]) (String.◌∷◌ d String.[]))) [
        | inl e ↦ rw e (strip_prefix-append_clash p q s (rw e at h))
        | inr e ↦ rw e refl
      ])

ends_with_slash : List ℕ → Bool
ends_with_slash [] = false
ends_with_slash (c ∷ []) = c == 47
ends_with_slash (c ∷ d ∷ cs) = ends_with_slash (d ∷ cs)

-- `Path::join`
unfoldable pub join_path : String → String → String
unfolding ends_with_slash
join_path dir name =
    if starts_with name "/"
    then name
    else (if str_eq dir "" || ends_with_slash (codes dir)
        then str_append dir name
        else str_append dir (str_append "/" name))
