-- ===== src/Prelude/Order.antt =====
-- Comparators: `Ordering::then`, comparison by a key, and what makes a comparator a total preorder.
use Prim.Native.Nat.{compare, Ordering}
use Prim.Native.Char.{code}
use Prim.Native.String.{String}
use text.Mathlib.Text.{◌==◌ as str_eq}
use text.Mathlib.TextEquality.{Char-path, eq_iff}
use mathlib.Core.HLevel.{hedberg}
use mathlib.Core.Logic.{◌≢◌, inl, inr}
use mathlib.Core.Path.{◌≡◌, refl, ap}
use mathlib.Core.Bool.{Bool, true, false}
use native.Mathlib.Omega.{arith}
use subportal.Prelude.Tests.{Bool-cases}

-- `a.then(b)`
abbrev then_with : Ordering → Ordering → Ordering
then_with Ordering.eq o = o
then_with Ordering.lt o = Ordering.lt
then_with Ordering.gt o = Ordering.gt

abbrev flip_ordering : Ordering → Ordering
flip_ordering Ordering.lt = Ordering.gt
flip_ordering Ordering.eq = Ordering.eq
flip_ordering Ordering.gt = Ordering.lt

abbrev pub is_le : Ordering → Bool
is_le Ordering.gt = false
is_le _ = true

-- `Ord for str`: lexicographic. UTF-8 keeps the order of the code points.
unfoldable pub cmp_str : String → String → Ordering
cmp_str String.[] String.[] = Ordering.eq
cmp_str String.[] (String.◌∷◌ d t) = Ordering.lt
cmp_str (String.◌∷◌ c s) String.[] = Ordering.gt
cmp_str (String.◌∷◌ c s) (String.◌∷◌ d t) = then_with (compare (code c) (code d)) (cmp_str s t)

-- A comparator that orders: mirrored arguments mirror the answer, equals are interchangeable on
-- the left, and "before" is transitive.
pub record IsOrder {ℓ} {A : Type ℓ} (cmp : A → A → Ordering) : Type ℓ where
  pub mirror : (a b : A) → cmp b a ≡ flip_ordering (cmp a b)
  pub interchange : (a b c : A) → cmp a b ≡ Ordering.eq → cmp a c ≡ cmp b c
  pub before : (a b c : A) → cmp a b ≡ Ordering.lt → cmp b c ≡ Ordering.lt → cmp a c ≡ Ordering.lt

pub compare-IsOrder : IsOrder compare
compare-IsOrder = record {
  mirror = λ a b. ground arith;
  interchange = λ a b c h. ground arith;
  before = λ a b c h k. ground arith;
}

module _ {ℓ} {A : Type ℓ} where
  -- `|a, b| f(a).cmp(&f(b))`
  abbrev pub cmp_by {κ} : {B : Type κ} → (B → B → Ordering) → (A → B) → A → A → Ordering
  cmp_by cmp f a b = cmp (f a) (f b)

  -- `|a, b| cmp(b, a)`
  abbrev pub cmp_reversed : (A → A → Ordering) → A → A → Ordering
  cmp_reversed cmp a b = cmp b a

  -- `|a, b| first(a, b).then(second(a, b))`
  abbrev pub cmp_then : (A → A → Ordering) → (A → A → Ordering) → A → A → Ordering
  cmp_then first second a b = then_with (first a b) (second a b)

  pub cmp_by-IsOrder {κ} :
      {B : Type κ} {cmp : B → B → Ordering} (f : A → B) → IsOrder cmp → IsOrder (cmp_by cmp f)
  cmp_by-IsOrder f o = record {
    mirror = λ a b. o.mirror (f a) (f b);
    interchange = λ a b c. o.interchange (f a) (f b) (f c);
    before = λ a b c. o.before (f a) (f b) (f c);
  }

  module _ {cmp : A → A → Ordering} (o : IsOrder cmp) where
    pub cmp_reversed-IsOrder : IsOrder (cmp_reversed cmp)
    cmp_reversed-IsOrder = record {
      mirror = λ a b. o.mirror b a;
      interchange =
          λ a b c h. ground (arith, o.mirror b a, o.interchange a b c, o.mirror a c, o.mirror b c);
      before = λ a b c h k. o.before c b a k h;
    }

    module _ {second : A → A → Ordering} (o' : IsOrder second) where
      pub cmp_then-IsOrder : IsOrder (cmp_then cmp second)
      cmp_then-IsOrder = record {
        mirror = λ a b. ground (arith, o.mirror a b, o'.mirror a b);
        interchange = λ a b c h. ground (arith, o.interchange a b c, o'.interchange a b c);
        before = λ a b c h k. ground (
          arith,
          o.before a b c,
          o'.before a b c,
          o.interchange a b c,
          o.interchange b c a,
          o.interchange c b a,
          o.mirror a b,
          o.mirror b c,
          o.mirror a c,
        );
      }

cmp_str-mirror : (s t : String) → cmp_str t s ≡ flip_ordering (cmp_str s t)
unfolding cmp_str
cmp_str-mirror String.[] String.[] = refl
cmp_str-mirror String.[] (String.◌∷◌ d t) = refl
cmp_str-mirror (String.◌∷◌ c s) String.[] = refl
cmp_str-mirror (String.◌∷◌ c s) (String.◌∷◌ d t) = ground (arith, cmp_str-mirror s t)

-- Texts that compare equal are the same text.
pub cmp_str-eq : (s t : String) → cmp_str s t ≡ Ordering.eq → s ≡ t
unfolding cmp_str
cmp_str-eq String.[] String.[] h = refl
cmp_str-eq String.[] (String.◌∷◌ d t) h = cc
cmp_str-eq (String.◌∷◌ c s) String.[] h = cc
cmp_str-eq (String.◌∷◌ c s) (String.◌∷◌ d t) h = ground (arith, Char-path c d, cmp_str-eq s t)

cmp_str-before :
    (s t u : String)
    → cmp_str s t ≡ Ordering.lt
    → cmp_str t u ≡ Ordering.lt
    → cmp_str s u ≡ Ordering.lt
unfolding cmp_str
cmp_str-before String.[] String.[] u h k = cc
cmp_str-before String.[] (String.◌∷◌ d t) String.[] h k = cc
cmp_str-before String.[] (String.◌∷◌ d t) (String.◌∷◌ e u) h k = refl
cmp_str-before (String.◌∷◌ c s) String.[] u h k = cc
cmp_str-before (String.◌∷◌ c s) (String.◌∷◌ d t) String.[] h k = cc
cmp_str-before (String.◌∷◌ c s) (String.◌∷◌ d t) (String.◌∷◌ e u) h k =
    ground (arith, cmp_str-before s t u)

pub cmp_str-IsOrder : IsOrder cmp_str
cmp_str-IsOrder = record {
  mirror = cmp_str-mirror;
  interchange = λ s t u h. ap (λ x. cmp_str x u) (cmp_str-eq s t h);
  before = cmp_str-before;
}

String-discrete : Discrete String
String-discrete s t = elim (Bool-cases (str_eq s t)) [
  | inl e ↦ yes ((eq_iff s t).0 e)
  | inr e ↦ no (λ p. ground (arith, eq_iff s t))
]

pub String-set : IsSet String
String-set = hedberg String-discrete

pub str_ne : (s t : String) → str_eq s t ≡ false → s ≢ t
str_ne s t h e = ground (arith, eq_iff s t)
