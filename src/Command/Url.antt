-- ===== src/Command/Url.antt =====
-- `is_url` of crates/subportal/src/main.rs and crates/xdg-open/src/main.rs. A position counts characters.
use mathlib.Core.Option
use mathlib.Core.Path.{subst}
use subportal.Prelude.{
  ℕ, suc, ◌<◌, String, ◌≡◌, refl, ap, sym, ◌↔◌, inl, inr, Bool, true, false, ◌&&◌, ◌||◌, Option,
  none, some, List, [], ◌∷◌, ◌++◌, length, take, leb, ltb, ◌==◌, if◌then◌else◌, All, Bool-cases,
  arith, unwrap_or,
}
use subportal.Prelude.Text.{codes}

-- `"://"`
abbrev separator : List ℕ
separator = 58 ∷ 47 ∷ 47 ∷ []

-- Whether `p` is the start of a text.
unfoldable is_prefix : List ℕ → List ℕ → Bool
is_prefix [] s = true
is_prefix (c ∷ p) [] = false
is_prefix (c ∷ p) (d ∷ s) = (c == d) && is_prefix p s

-- `str::find`: where the first match begins.
unfoldable find_text : List ℕ → List ℕ → Option ℕ
unfolding is_prefix
find_text p [] = if is_prefix p [] then some 0 else none
find_text p (c ∷ s) = if is_prefix p (c ∷ s) then some 0 else Option.map suc (find_text p s)

-- `c.is_ascii_alphanumeric() || c == '+' || c == '-' || c == '.'`
abbrev is_scheme_char : ℕ → Bool
is_scheme_char c =
    (leb 48 c && leb c 57)
    || (leb 65 c && leb c 90)
    || (leb 97 c && leb c 122)
    || (c == 43)
    || (c == 45)
    || (c == 46)

unfoldable all_chars : (ℕ → Bool) → List ℕ → Bool
all_chars t [] = true
all_chars t (c ∷ s) = t c && all_chars t s

-- `pos > 0 && target[..pos].chars().all(..)`
unfoldable has_scheme : List ℕ → ℕ → Bool
unfolding all_chars
has_scheme target pos = ltb 0 pos && all_chars is_scheme_char (take pos target)

unfoldable is_url_text : List ℕ → Bool
unfolding find_text has_scheme
is_url_text target = unwrap_or (Option.map (has_scheme target) (find_text separator target)) false

unfoldable pub is_url : String → Bool
unfolding is_url_text
is_url target = is_url_text (codes target)

-- A text with a scheme: at least one letter, digit, `+`, `-` or `.`, and `://` right behind them.
pub record HasScheme (target : List ℕ) : Type 0 where
  pub scheme : List ℕ
  pub rest : List ℕ
  pub split : target ≡ scheme ++ (separator ++ rest)
  pub nonempty : 0 < length scheme
  pub chars : All (λ c. is_scheme_char c ≡ true) scheme

is_prefix-split : (p s : List ℕ) → is_prefix p s ≡ true → (rest : List ℕ) × (s ≡ p ++ rest)
unfolding is_prefix
is_prefix-split [] s h = (s, refl)
is_prefix-split (c ∷ p) [] h = cc
is_prefix-split (c ∷ p) (d ∷ s) h =
    let (rest, e) = is_prefix-split p s (ground arith) in (rest, ground (arith, e))

is_prefix-append : (p s : List ℕ) → is_prefix p (p ++ s) ≡ true
unfolding is_prefix
is_prefix-append [] s = refl
is_prefix-append (c ∷ p) s = ground (arith, is_prefix-append p s)

all_chars-All : (t : ℕ → Bool) (s : List ℕ) → (all_chars t s ≡ true) ↔ All (λ c. t c ≡ true) s
unfolding all_chars
all_chars-All t [] = (λ h. tt, λ h. refl)
all_chars-All t (c ∷ s) = (
  λ h. (ground arith, (all_chars-All t s).0 (ground arith)),
  λ h. ground (arith, h.0, (all_chars-All t s).1 h.1),
)

-- The pattern stands where it is found.
abbrev Splits : List ℕ → List ℕ → Option ℕ → Type 0
Splits p s none = Unit
Splits p s (some n) = (rest : List ℕ) × (s ≡ take n s ++ (p ++ rest)) × (length (take n s) ≡ n)

Splits-cons :
    (p : List ℕ) (c : ℕ) (s : List ℕ) (o : Option ℕ)
    → Splits p s o
    → Splits p (c ∷ s) (Option.map suc o)
Splits-cons p c s none h = tt
Splits-cons p c s (some n) (rest, e, l) = (rest, ap (◌∷◌ c) e, ap suc l)

find_text-Splits : (p s : List ℕ) → Splits p s (find_text p s)
unfolding find_text
find_text-Splits p [] = elim (Bool-cases (is_prefix p [])) [
  | inl e ↦ let (rest, q) = is_prefix-split p [] e in rw e (rest, q, refl)
  | inr e ↦ rw e tt
]
find_text-Splits p (c ∷ s) = elim (Bool-cases (is_prefix p (c ∷ s))) [
  | inl e ↦ let (rest, q) = is_prefix-split p (c ∷ s) e in rw e (rest, q, refl)
  | inr e ↦ rw e (Splits-cons p c s (find_text p s) (find_text-Splits p s))
]

not_colon : (c : ℕ) → is_scheme_char c ≡ true → (58 == c) ≡ false
not_colon c h = ground arith

-- A scheme has no colon, so the first separator is the one behind it.
find_text-scheme :
    (scheme rest : List ℕ)
    → All (λ c. is_scheme_char c ≡ true) scheme
    → find_text separator (scheme ++ (separator ++ rest)) ≡ some (length scheme)
unfolding find_text
find_text-scheme [] rest h = refl
find_text-scheme (c ∷ scheme) rest h =
    rw (not_colon c h.0) (ap (Option.map suc) (find_text-scheme scheme rest h.1))

take-length : (s t : List ℕ) → take (length s) (s ++ t) ≡ s
take-length [] t = refl
take-length (c ∷ s) t = ap (◌∷◌ c) (take-length s t)

is_url-HasScheme :
    (target : List ℕ) (o : Option ℕ)
    → Splits separator target o
    → unwrap_or (Option.map (has_scheme target) o) false ≡ true
    → HasScheme target
unfolding has_scheme
is_url-HasScheme target none s h = cc
is_url-HasScheme target (some n) (rest, e, l) h = record {
  scheme = take n target;
  rest = rest;
  split = e;
  nonempty = ground (arith, l);
  chars = (all_chars-All is_scheme_char (take n target)).0 (ground (arith, l));
}

has_scheme-append :
    (scheme t : List ℕ)
    → 0 < length scheme
    → All (λ c. is_scheme_char c ≡ true) scheme
    → has_scheme (scheme ++ t) (length scheme) ≡ true
unfolding has_scheme
has_scheme-append scheme t n h =
    rw (take-length scheme t, (all_chars-All is_scheme_char scheme).1 h) (ground (arith, n))

HasScheme-is_url : (target : List ℕ) → HasScheme target → is_url_text target ≡ true
unfolding is_url_text
HasScheme-is_url target h =
    subst (λ t. is_url_text t ≡ true) (sym h.split)
      (rw (find_text-scheme h.scheme h.rest h.chars)
        (has_scheme-append h.scheme (separator ++ h.rest) h.nonempty h.chars))

-- `is_url` accepts exactly the texts with a scheme: at least one letter, digit, `+`, `-` or `.`, and
-- `://` right behind them.
pub is_url_iff : (target : String) → (is_url target ≡ true) ↔ HasScheme (codes target)
unfolding is_url
is_url_iff target =
    let text = codes target in
    (
      is_url-HasScheme text (find_text separator text) (find_text-Splits separator text),
      HasScheme-is_url text,
    )
