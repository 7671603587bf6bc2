-- ===== src/Prelude/Table.antt =====
-- `HashMap<String, V>` as an association list. The order of its entries stands for the map's order of
-- iteration, which Rust leaves open: a statement about every list is one about every order.
use Prim.Native.String.{String}
use text.Mathlib.Text.{◌==◌ as str_eq}
use text.Mathlib.TextEquality.{eq_iff}
use mathlib.Core.Path.{◌≡◌, refl}
use mathlib.Core.Option
use mathlib.Core.Logic.{◌≢◌, inl, inr}
use mathlib.Core.Bool.{Bool, true, false}
use mathlib.Core.Option.{Option, none, some}
use mathlib.Core.List.{List, [], ◌∷◌}
use native.Mathlib.Omega.{arith}
use subportal.Prelude.Tests.{if◌then◌else◌, Bool-cases}
use subportal.Prelude.Lists.{All}

abbrev pub Table {ℓ} : Type ℓ → Type ℓ
Table V = List (String × V)

module _ {ℓ} {V : Type ℓ} where
  unfoldable pub get : String → Table V → Option V
  get k [] = none
  get k ((j, v) ∷ t) = if str_eq j k then some v else get k t

  unfoldable pub remove : String → Table V → Table V
  remove k [] = []
  remove k ((j, v) ∷ t) = let rest = remove k t in if str_eq j k then rest else (j, v) ∷ rest

  unfoldable pub insert : String → V → Table V → Table V
  unfolding remove
  insert k v t = (k, v) ∷ remove k t

  abbrev pub contains_key : String → Table V → Bool
  contains_key k t = elim (get k t) [ none ↦ false | some v ↦ true ]

  abbrev pub values : Table V → List V
  values [] = []
  values ((k, v) ∷ t) = v ∷ values t

  abbrev pub keys : Table V → List String
  keys [] = []
  keys ((k, v) ∷ t) = k ∷ keys t

  -- No key has two entries.
  abbrev pub IsKeyed : Table V → Type 0
  IsKeyed [] = Unit
  IsKeyed ((k, v) ∷ t) = All (λ j. j ≢ k) (keys t) × IsKeyed t

  pub get-remove :
      (k j : String) (t : Table V) → get j (remove k t) ≡ (if str_eq k j then none else get j t)
  unfolding get remove
  get-remove k j [] = ground arith
  get-remove k j ((i, v) ∷ t) = ground (arith, get-remove k j t, eq_iff i k, eq_iff i j, eq_iff k j)

  pub get-insert :
      (k j : String) (v : V) (t : Table V)
      → get j (insert k v t) ≡ (if str_eq k j then some v else get j t)
  unfolding get insert
  get-insert k j v t = ground (arith, get-remove k j t)

  keys-remove-All :
      (P : String → Type 0) (k : String) (t : Table V) → All P (keys t) → All P (keys (remove k t))
  unfolding remove
  keys-remove-All P k [] h = tt
  keys-remove-All P k ((j, v) ∷ t) h = elim (Bool-cases (str_eq j k)) [
    | inl e ↦ rw e (keys-remove-All P k t h.1)
    | inr e ↦ rw e (h.0, keys-remove-All P k t h.1)
  ]

  keys-remove_ne : (k : String) (t : Table V) → All (λ j. j ≢ k) (keys (remove k t))
  unfolding remove
  keys-remove_ne k [] = tt
  keys-remove_ne k ((j, v) ∷ t) = elim (Bool-cases (str_eq j k)) [
    | inl e ↦ rw e (keys-remove_ne k t)
    | inr e ↦ rw e ((λ p. ground (arith, eq_iff j k)), keys-remove_ne k t)
  ]

  pub remove-IsKeyed : (k : String) (t : Table V) → IsKeyed t → IsKeyed (remove k t)
  unfolding remove
  remove-IsKeyed k [] h = tt
  remove-IsKeyed k ((j, v) ∷ t) h = elim (Bool-cases (str_eq j k)) [
    | inl e ↦ rw e (remove-IsKeyed k t h.1)
    | inr e ↦ rw e (keys-remove-All _ k t h.0, remove-IsKeyed k t h.1)
  ]

  pub insert-IsKeyed : (k : String) (v : V) (t : Table V) → IsKeyed t → IsKeyed (insert k v t)
  unfolding insert
  insert-IsKeyed k v t h = (keys-remove_ne k t, remove-IsKeyed k t h)

  -- A predicate on every entry.
  abbrev pub AllEntries {κ} : (String → V → Type κ) → Table V → Type κ
  AllEntries P [] = Unit
  AllEntries P ((k, v) ∷ t) = P k v × AllEntries P t

  pub remove-AllEntries {κ} :
      (P : String → V → Type κ) (k : String) (t : Table V)
      → AllEntries P t
      → AllEntries P (remove k t)
  unfolding remove
  remove-AllEntries P k [] h = tt
  remove-AllEntries P k ((j, v) ∷ t) h = elim (Bool-cases (str_eq j k)) [
    | inl e ↦ rw e (remove-AllEntries P k t h.1)
    | inr e ↦ rw e (h.0, remove-AllEntries P k t h.1)
  ]

  pub insert-AllEntries {κ} :
      (P : String → V → Type κ) (k : String) (v : V) (t : Table V)
      → P k v
      → AllEntries P t
      → AllEntries P (insert k v t)
  unfolding insert
  insert-AllEntries P k v t p h = (p, remove-AllEntries P k t h)

module _ {ℓ} {V : Type ℓ} where
  -- `if let Some(v) = map.get_mut(k) { *v = f(v) }`
  unfoldable pub modify : String → (V → V) → Table V → Table V
  modify k f [] = []
  modify k f ((j, v) ∷ t) =
      let rest = modify k f t in if str_eq j k then (j, f v) ∷ t else (j, v) ∷ rest

  pub get-modify :
      (k j : String) (f : V → V) (t : Table V)
      → get j (modify k f t) ≡ (if str_eq k j then Option.map f (get j t) else get j t)
  unfolding get modify
  get-modify k j f [] = ground arith
  get-modify k j f ((i, v) ∷ t) =
      ground (arith, get-modify k j f t, eq_iff i k, eq_iff i j, eq_iff k j)

  keys-modify : (k : String) (f : V → V) (t : Table V) → keys (modify k f t) ≡ keys t
  unfolding modify
  keys-modify k f [] = refl
  keys-modify k f ((j, v) ∷ t) = ground (arith, keys-modify k f t)

  pub modify-IsKeyed : (k : String) (f : V → V) (t : Table V) → IsKeyed t → IsKeyed (modify k f t)
  unfolding modify
  modify-IsKeyed k f [] h = tt
  modify-IsKeyed k f ((j, v) ∷ t) h = elim (Bool-cases (str_eq j k)) [
    | inl e ↦ rw e h
    | inr e ↦ rw (e, keys-modify k f t) (h.0, modify-IsKeyed k f t h.1)
  ]

  pub modify-AllEntries {κ} :
      (P : String → V → Type κ) (k : String) (f : V → V) (t : Table V)
      → ((j : String) (v : V) → P j v → P j (f v))
      → AllEntries P t
      → AllEntries P (modify k f t)
  unfolding modify
  modify-AllEntries P k f [] p h = tt
  modify-AllEntries P k f ((j, v) ∷ t) p h = elim (Bool-cases (str_eq j k)) [
    | inl e ↦ rw e (p j v h.0, h.1)
    | inr e ↦ rw e (h.0, modify-AllEntries P k f t p h.1)
  ]
