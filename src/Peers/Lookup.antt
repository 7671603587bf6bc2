-- ===== src/Peers/Lookup.antt =====
-- What a registry holds after each operation: the entry of every id.
use subportal.Prelude.{
  ◌≤◌, String, str_eq, eq_iff, ◌≡◌, refl, ◌≢◌, Bool, false, not, Option, none, some, List, [], ◌∷◌,
  ◌++◌, filter, any, All, length, ltb, if◌then◌else◌, arith, Bool-cases, inl, inr, and_then,
}
use mathlib.Core.Path.{subst}
use subportal.Peers.Registry.{
  SaveIo, written, write_failed, FileFormat, Registry, Identified, has_other_id, is_unnamed_by,
  find_id, add_entry, remove_entry,
}

module _ {E : Type 0} ⦃i : Identified E⦄ where
  open i use {id_of, name_of}

  -- No endpoint id has two entries.
  abbrev pub IsUnique : List E → Type 0
  IsUnique [] = Unit
  IsUnique (e ∷ es) = All (λ d. id_of d ≢ id_of e) es × IsUnique es

  All-filter : (P : E → Type 0) (t : E → Bool) (es : List E) → All P es → All P (filter t es)
  All-filter P t [] h = tt
  All-filter P t (e ∷ es) h = elim (Bool-cases (t e)) [
    | inl p ↦ rw p (h.0, All-filter P t es h.1)
    | inr p ↦ rw p (All-filter P t es h.1)
  ]

  pub filter-IsUnique : (t : E → Bool) (es : List E) → IsUnique es → IsUnique (filter t es)
  filter-IsUnique t [] h = tt
  filter-IsUnique t (e ∷ es) h = elim (Bool-cases (t e)) [
    | inl p ↦ rw p (All-filter _ t es h.0, filter-IsUnique t es h.1)
    | inr p ↦ rw p (filter-IsUnique t es h.1)
  ]

  All-snoc : (P : E → Type 0) (es : List E) (e : E) → All P es → P e → All P (es ++ (e ∷ []))
  All-snoc P [] e h p = (p, tt)
  All-snoc P (d ∷ es) e h p = (h.0, All-snoc P es e h.1 p)

  filter_other-snoc-IsUnique :
      (e : E) (es : List E)
      → IsUnique es
      → IsUnique (filter (has_other_id (id_of e)) es ++ (e ∷ []))
  filter_other-snoc-IsUnique e [] h = (tt, tt)
  filter_other-snoc-IsUnique e (d ∷ es) h = elim (Bool-cases (str_eq (id_of d) (id_of e))) [
    | inl p ↦ rw p (filter_other-snoc-IsUnique e es h.1)
    | inr p ↦ rw p (
      All-snoc _ _ e (All-filter _ _ es h.0) (λ q. ground (arith, eq_iff (id_of d) (id_of e))),
      filter_other-snoc-IsUnique e es h.1,
    )
  ]

  find_id-snoc :
      (id : String) (e : E) (es : List E)
      → find_id id (filter (has_other_id (id_of e)) es ++ (e ∷ []))
        ≡ (if str_eq (id_of e) id then some e else find_id id es)
  unfolding find_id
  find_id-snoc id e [] = refl
  find_id-snoc id e (d ∷ es) = ground (
    arith,
    find_id-snoc id e es,
    eq_iff (id_of d) (id_of e),
    eq_iff (id_of d) id,
    eq_iff (id_of e) id,
  )

  find_id_absent : (id : String) (es : List E) → All (λ d. id_of d ≢ id) es → find_id id es ≡ none
  unfolding find_id
  find_id_absent id [] h = refl
  find_id_absent id (d ∷ es) h = ground (arith, find_id_absent id es h.1, eq_iff (id_of d) id)

  -- What is left of a found entry when the entries that `x` names are removed.
  abbrev pub unless_named : String → E → Option E
  unless_named x e = if is_unnamed_by x e then some e else none

  find_id-filter :
      (id x : String) (es : List E)
      → IsUnique es
      → find_id id (filter (is_unnamed_by x) es) ≡ and_then (find_id id es) (unless_named x)
  unfolding find_id
  find_id-filter id x [] h = refl
  find_id-filter id x (d ∷ es) h = elim (Bool-cases (str_eq (id_of d) id)) [
    | inl p ↦ ground (
      arith,
      find_id-filter id x es h.1,
      p,
      find_id_absent id es (subst (λ k. All (λ e. id_of e ≢ k) es) ((eq_iff (id_of d) id).0 p) h.0),
    )
    | inr p ↦ ground (arith, find_id-filter id x es h.1, p)
  ]

  length-filter-le : (t : E → Bool) (es : List E) → length (filter t es) ≤ length es
  length-filter-le t [] = omega arith
  length-filter-le t (e ∷ es) = ground (arith, length-filter-le t es)

  -- The length shrinks exactly if some entry is dropped.
  pub filter_shrinks :
      (t : E → Bool) (es : List E)
      → ltb (length (filter t es)) (length es) ≡ any (λ e. not (t e)) es
  filter_shrinks t [] = refl
  filter_shrinks t (e ∷ es) = ground (arith, filter_shrinks t es, length-filter-le t es)

  pub filter_keeps_all :
      (t : E → Bool) (es : List E) → any (λ e. not (t e)) es ≡ false → filter t es ≡ es
  filter_keeps_all t [] h = refl
  filter_keeps_all t (e ∷ es) h = ground (arith, filter_keeps_all t es)

  module _ (format : FileFormat E) where
    -- Adding keeps the ids unique, and the entry of every id is the added one at its id, and else the
    -- one from before. This holds in memory also where the file cannot be written.
    pub add_entry_lem :
        (io : SaveIo) (entry : E) (r : Registry E)
        → IsUnique r.entries
        → IsUnique (add_entry format io entry r).1.entries
          × ((id : String)
              → find_id id (add_entry format io entry r).1.entries
                ≡ (if str_eq (id_of entry) id then some entry else find_id id r.entries))
    unfolding add_entry
    add_entry_lem written entry r h =
        (filter_other-snoc-IsUnique entry r.entries h, λ id. find_id-snoc id entry r.entries)
    add_entry_lem (write_failed left) entry r h =
        (filter_other-snoc-IsUnique entry r.entries h, λ id. find_id-snoc id entry r.entries)

    remove_entry_entries :
        (io : SaveIo) (x : String) (r : Registry E)
        → (remove_entry format io x r).1.entries ≡ filter (is_unnamed_by x) r.entries
    unfolding remove_entry
    remove_entry_entries written x r = ground arith
    remove_entry_entries (write_failed left) x r = ground arith

    -- Where the ids are unique, removing keeps them so, and the entry of every id is the one from before, unless `x` is
    -- its endpoint id or its name: then there is none. This holds in memory also where the file cannot
    -- be written.
    pub remove_entry_lem :
        (io : SaveIo) (x : String) (r : Registry E)
        → IsUnique r.entries
        → IsUnique (remove_entry format io x r).1.entries
          × ((id : String)
              → find_id id (remove_entry format io x r).1.entries
                ≡ and_then (find_id id r.entries) (unless_named x))
    remove_entry_lem io x r h =
        rw (remove_entry_entries io x r)
          (filter-IsUnique _ r.entries h, λ id. find_id-filter id x r.entries h)
