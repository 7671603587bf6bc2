-- ===== src/Prelude/Sort.antt =====
-- `slice::sort_by`: a stable sort. Its answer is a sorted permutation of the input, and where no two
-- elements compare equal it does not depend on the order of the input.
use Prim.Native.Nat.{Ordering}
use mathlib.Core.Path.{◌≡◌, refl, ◌∙◌, subst, subst₂}
use mathlib.Core.Logic.{◌≢◌, inl, inr, ∥∥₁_elim, ∥∥₁_prop}
use mathlib.Core.Bool.{Bool, true, false, ◌||◌}
use mathlib.Core.List.{List, [], ◌∷◌, Perm, Permᴰ, is_set}
use mathlib.Core.List.Perm
use native.Mathlib.Omega.{arith}
use subportal.Prelude.Tests.{if◌then◌else◌, Bool-cases}
use subportal.Prelude.Lists.{All, filter, any}
use subportal.Prelude.Order.{IsOrder, is_le}

module _ {ℓ} {A : Type ℓ} (cmp : A → A → Ordering) where
  unfoldable insert_by : A → List A → List A
  insert_by x [] = x ∷ []
  insert_by x (y ∷ ys) =
      let rest = insert_by x ys in if is_le (cmp x y) then x ∷ y ∷ ys else y ∷ rest

  -- Elements that compare equal keep their order: the later ones are put in first.
  unfoldable pub sort_by : List A → List A
  unfolding insert_by
  sort_by [] = []
  sort_by (x ∷ xs) = insert_by x (sort_by xs)

  abbrev pub IsSorted : List A → Type ℓ
  IsSorted [] = Unit
  IsSorted (x ∷ xs) = All (λ y. is_le (cmp x y) ≡ true) xs × IsSorted xs

  -- No two elements compare equal.
  abbrev pub IsApart : List A → Type ℓ
  IsApart [] = Unit
  IsApart (x ∷ xs) = All (λ y. cmp x y ≢ Ordering.eq) xs × IsApart xs

module _ {ℓ} {A : Type ℓ} (cmp : A → A → Ordering) where
  insert_by-perm : (x : A) (l : List A) → Perm (insert_by cmp x l) (x ∷ l)
  unfolding insert_by
  insert_by-perm x [] = Perm.refl _
  insert_by-perm x (y ∷ ys) = elim (Bool-cases (is_le (cmp x y))) [
    | inl e ↦ rw e (Perm.refl _)
    | inr e ↦ rw e (Perm.trans (Perm.cons y (insert_by-perm x ys)) (Perm.swap x y ys))
  ]

  -- Sorting keeps every element, as often.
  pub sort_by-perm : (l : List A) → Perm (sort_by cmp l) l
  unfolding sort_by
  sort_by-perm [] = Perm.refl _
  sort_by-perm (x ∷ xs) =
      Perm.trans (insert_by-perm x (sort_by cmp xs)) (Perm.cons x (sort_by-perm xs))

module _ {ℓ} {A : Type ℓ} {cmp : A → A → Ordering} (o : IsOrder cmp) where
  le_total : (x y : A) → is_le (cmp x y) ≡ false → is_le (cmp y x) ≡ true
  le_total x y h = ground (arith, o.mirror x y)

  le_trans : (x y z : A) → is_le (cmp x y) ≡ true → is_le (cmp y z) ≡ true → is_le (cmp x z) ≡ true
  le_trans x y z h k = ground (
    arith,
    o.before x y z,
    o.interchange x y z,
    o.interchange z y x,
    o.mirror x z,
    o.mirror y z,
    o.mirror x y,
  )

  All-le_trans :
      (x y : A) (l : List A)
      → is_le (cmp x y) ≡ true
      → All (λ z. is_le (cmp y z) ≡ true) l
      → All (λ z. is_le (cmp x z) ≡ true) l
  All-le_trans x y [] h a = tt
  All-le_trans x y (z ∷ l) h a = (le_trans x y z h a.0, All-le_trans x y l h a.1)

  All-insert_by :
      (x y : A) (l : List A)
      → is_le (cmp y x) ≡ true
      → All (λ z. is_le (cmp y z) ≡ true) l
      → All (λ z. is_le (cmp y z) ≡ true) (insert_by cmp x l)
  unfolding insert_by
  All-insert_by x y [] h a = (h, tt)
  All-insert_by x y (z ∷ l) h a = elim (Bool-cases (is_le (cmp x z))) [
    | inl e ↦ rw e (h, a)
    | inr e ↦ rw e (a.0, All-insert_by x y l h a.1)
  ]

  insert_by-IsSorted : (x : A) (l : List A) → IsSorted cmp l → IsSorted cmp (insert_by cmp x l)
  unfolding insert_by
  insert_by-IsSorted x [] s = (tt, tt)
  insert_by-IsSorted x (y ∷ l) s = elim (Bool-cases (is_le (cmp x y))) [
    | inl e ↦ rw e ((e, All-le_trans x y l e s.0), s)
    | inr e ↦ rw e (All-insert_by x y l (le_total x y e) s.0, insert_by-IsSorted x l s.1)
  ]

  pub sort_by-IsSorted : (l : List A) → IsSorted cmp (sort_by cmp l)
  unfolding sort_by
  sort_by-IsSorted [] = tt
  sort_by-IsSorted (x ∷ xs) = insert_by-IsSorted x (sort_by cmp xs) (sort_by-IsSorted xs)

  insert_by_comm :
      (x y : A) (l : List A)
      → cmp x y ≢ Ordering.eq
      → insert_by cmp x (insert_by cmp y l) ≡ insert_by cmp y (insert_by cmp x l)
  unfolding insert_by
  insert_by_comm x y [] h = ground (arith, o.mirror x y)
  insert_by_comm x y (z ∷ l) h =
      ground (arith, o.mirror x y, le_trans x y z, le_trans y x z, insert_by_comm x y l h)

module _ {ℓ κ} {A : Type ℓ} (P : A → Type κ) where
  All-permᴰ : {l m : List A} → Permᴰ l m → All P l → All P m
  All-permᴰ Permᴰ.nil h = h
  All-permᴰ (Permᴰ.cons e p) h = (subst P e h.0, All-permᴰ p h.1)
  All-permᴰ (Permᴰ.swap e f) h = (subst P f h.1.0, (subst P e h.0, h.1.1))
  All-permᴰ (Permᴰ.trans p q) h = All-permᴰ q (All-permᴰ p h)

module _ {ℓ} {A : Type ℓ} (t : A → Bool) where
  filter-cons-perm :
      (a : A) (l m : List A)
      → Perm (filter t l) (filter t m)
      → Perm (filter t (a ∷ l)) (filter t (a ∷ m))
  filter-cons-perm a l m p = elim (Bool-cases (t a)) [
    | inl e ↦ rw e (Perm.cons a p)
    | inr e ↦ rw e p
  ]

  filter-swap-perm : (a b : A) (l : List A) → Perm (filter t (a ∷ b ∷ l)) (filter t (b ∷ a ∷ l))
  filter-swap-perm a b l = elim (Bool-cases (t a)) [
    | inl e ↦ elim (Bool-cases (t b)) [
      | inl f ↦ rw (e, f) (Perm.swap b a (filter t l))
      | inr f ↦ rw (e, f) (Perm.refl _)
    ]
    | inr e ↦ elim (Bool-cases (t b)) [
      | inl f ↦ rw (e, f) (Perm.refl _)
      | inr f ↦ rw (e, f) (Perm.refl _)
    ]
  ]

  filter-permᴰ : {l m : List A} → Permᴰ l m → Perm (filter t l) (filter t m)
  filter-permᴰ Permᴰ.nil = Perm.refl _
  filter-permᴰ (Permᴰ.cons {a = a} {l₁ = l} {l₂ = m} e p) =
      subst (λ b. Perm (filter t (a ∷ l)) (filter t (b ∷ m))) e
        (filter-cons-perm a l m (filter-permᴰ p))
  filter-permᴰ (Permᴰ.swap {a = a} {b = b} {l = l} e f) =
      subst₂ (λ x y. Perm (filter t (a ∷ b ∷ l)) (filter t (x ∷ y ∷ l))) f e
        (filter-swap-perm a b l)
  filter-permᴰ (Permᴰ.trans p q) = Perm.trans (filter-permᴰ p) (filter-permᴰ q)

  pub filter-perm : {l m : List A} → Perm l m → Perm (filter t l) (filter t m)
  filter-perm p = ∥∥₁_elim p ∥∥₁_prop filter-permᴰ

module _ {ℓ} {A : Type ℓ} {cmp : A → A → Ordering} (o : IsOrder cmp) where
  ne_flip : (x y : A) → cmp x y ≢ Ordering.eq → cmp y x ≢ Ordering.eq
  ne_flip x y h e = h (ground (arith, o.mirror y x))

  IsApart-permᴰ : {l m : List A} → Permᴰ l m → IsApart cmp l → IsApart cmp m
  IsApart-permᴰ Permᴰ.nil h = h
  IsApart-permᴰ (Permᴰ.cons {a = a} {l₂ = l₂} e p) h =
      (subst (λ x. All (λ y. cmp x y ≢ Ordering.eq) l₂) e (All-permᴰ _ p h.0), IsApart-permᴰ p h.1)
  IsApart-permᴰ (Permᴰ.swap {a = a} {b = b} {l = l} e f) h =
      subst₂ (λ x y. IsApart cmp (x ∷ y ∷ l)) f e ((ne_flip a b h.0.0, h.1.0), (h.0.1, h.1.1))
  IsApart-permᴰ (Permᴰ.trans p q) h = IsApart-permᴰ q (IsApart-permᴰ p h)

  sort_by-permᴰ : {l m : List A} → Permᴰ l m → IsApart cmp l → sort_by cmp l ≡ sort_by cmp m
  unfolding sort_by
  sort_by-permᴰ Permᴰ.nil h = refl
  sort_by-permᴰ (Permᴰ.cons e p) h = λ i. insert_by cmp (e i) (sort_by-permᴰ p h.1 i)
  sort_by-permᴰ (Permᴰ.swap {l = l} e f) h =
      insert_by_comm o _ _ (sort_by cmp l) h.0.0
      ∙ (λ i. insert_by cmp (f i) (insert_by cmp (e i) (sort_by cmp l)))
  sort_by-permᴰ (Permᴰ.trans p q) h = sort_by-permᴰ p h ∙ sort_by-permᴰ q (IsApart-permᴰ p h)

  -- Where no two elements compare equal, the order of the input does not matter.
  pub sort_by_unique :
      IsSet A → {l m : List A} → Perm l m → IsApart cmp l → sort_by cmp l ≡ sort_by cmp m
  sort_by_unique s p h = ∥∥₁_elim p (is_set s _ _) (λ q. sort_by-permᴰ q h)

module _ {ℓ κ} {A : Type ℓ} (P : A → Type κ) (cmp : A → A → Ordering) where
  All-insert : (x : A) (l : List A) → P x → All P l → All P (insert_by cmp x l)
  unfolding insert_by
  All-insert x [] p h = (p, tt)
  All-insert x (y ∷ l) p h = elim (Bool-cases (is_le (cmp x y))) [
    | inl e ↦ rw e (p, h)
    | inr e ↦ rw e (h.0, All-insert x l p h.1)
  ]

  pub All-sort_by : (l : List A) → All P l → All P (sort_by cmp l)
  unfolding sort_by
  All-sort_by [] h = tt
  All-sort_by (x ∷ l) h = All-insert x (sort_by cmp l) h.0 (All-sort_by l h.1)

module _ {ℓ} {A : Type ℓ} (t : A → Bool) where
  any-permᴰ : {l m : List A} → Permᴰ l m → any t l ≡ any t m
  any-permᴰ Permᴰ.nil = refl
  any-permᴰ (Permᴰ.cons e p) = λ i. t (e i) || any-permᴰ p i
  any-permᴰ (Permᴰ.swap {a = a} {b = b} {l = l} e f) =
      ground arith ∙ (λ i. t (f i) || (t (e i) || any t l))
  any-permᴰ (Permᴰ.trans p q) = any-permᴰ p ∙ any-permᴰ q

  pub any-perm : {l m : List A} → Perm l m → any t l ≡ any t m
  any-perm p = ∥∥₁_elim p (hlevel) any-permᴰ
