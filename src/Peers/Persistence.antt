-- ===== src/Peers/Persistence.antt =====
-- A client registry over a whole life: its ids stay unique, and what is on disk is what is in memory.
use subportal.Prelude.{
  ℕ, String, str_eq, ◌≡◌, true, some, List, [], ◌∷◌, ok, arith, Bool-cases, inl, inr, Option-cases,
  All, ltb, length, filter, ◌≢◌, ◌∙◌, sym, ◌⊎◌,
}
use mathlib.Core.Path.{subst}
use subportal.Peers.Registry.{written, FileFormat, is_unnamed_by, save_entries}
use subportal.Peers.Lookup.{
  IsUnique, add_entry_lem, filter_shrinks, filter_keeps_all, filter-IsUnique,
}
use subportal.Peers.Clients
use subportal.Peers.Clients.{
  ClientEntry, ClientRegistry, client_identified, touch_entries, touch_save,
}

-- A touched list: the first entry with the id is replaced, or an entry stays and the rest is touched.
touch_entries_cons :
    (now : ℕ) (id : String) (caps : List String) (c : ClientEntry) (cs : List ClientEntry)
    {cs' : List ClientEntry}
    → touch_entries now id caps (c ∷ cs) ≡ some cs'
    → (cs' ≡ record c { last_seen = some now; capabilities = caps } ∷ cs)
      ⊎ ((rest : List ClientEntry) × (touch_entries now id caps cs ≡ some rest) × (cs' ≡ c ∷ rest))
unfolding touch_entries
touch_entries_cons now id caps c cs e = elim (Option-cases (touch_entries now id caps cs)) [
  | inl n ↦ inl (ground arith)
  | inr (rest, p) ↦ elim (Bool-cases (str_eq c.endpoint_id id)) [
    | inl q ↦ inl (ground arith)
    | inr q ↦ inr (rest, p, ground arith)
  ]
]

touch_entries-All :
    (k : String) (now : ℕ) (id : String) (caps : List String) (cs : List ClientEntry)
    {cs' : List ClientEntry}
    → touch_entries now id caps cs ≡ some cs'
    → All (λ d. d.endpoint_id ≢ k) cs
    → All (λ d. d.endpoint_id ≢ k) cs'
touch_entries-All k now id caps [] e h = absurd (unfold touch_entries in ground arith)
touch_entries-All k now id caps (c ∷ cs) e h = elim (touch_entries_cons now id caps c cs e) [
  | inl p ↦ subst (All (λ d. d.endpoint_id ≢ k)) (sym p) h
  | inr (rest, q, p) ↦
      subst (All (λ d. d.endpoint_id ≢ k)) (sym p) (h.0, touch_entries-All k now id caps cs q h.1)
]

touch_entries-IsUnique :
    (now : ℕ) (id : String) (caps : List String) (cs : List ClientEntry) {cs' : List ClientEntry}
    → touch_entries now id caps cs ≡ some cs'
    → IsUnique cs
    → IsUnique cs'
touch_entries-IsUnique now id caps [] e h = absurd (unfold touch_entries in ground arith)
touch_entries-IsUnique now id caps (c ∷ cs) e h = elim (touch_entries_cons now id caps c cs e) [
  | inl p ↦ subst IsUnique (sym p) h
  | inr (rest, q, p) ↦ subst IsUnique (sym p) (
    touch_entries-All c.endpoint_id now id caps cs q h.0,
    touch_entries-IsUnique now id caps cs q h.1,
  )
]

-- The operations that change a client registry, with their inputs.
pub data Change : Type 0 where
  add : ClientEntry → Change
  remove : String → Change
  touch : ℕ → String → List String → Change

module _ (format : FileFormat ClientEntry) where
  abbrev apply : Change → ClientRegistry → ClientRegistry
  apply (add entry) r = (Clients.add format written entry r).1
  apply (remove x) r = (Clients.remove format written x r).1
  apply (touch now id caps) r = (Clients.touch format written now id caps r).1

  abbrev pub apply_all : List Change → ClientRegistry → ClientRegistry
  apply_all [] r = r
  apply_all (c ∷ cs) r = apply_all cs (apply c r)

  -- The ids are unique, and loading the registry's file gives the registry.
  pub record IsSound (r : ClientRegistry) : Type 0 where
    pub unique : IsUnique r.entries
    pub saved : Clients.load format true r.file ≡ ok r

  saved_loads :
      (es : List ClientEntry)
      → Clients.load format true (some (format.print es))
        ≡ ok (record { entries = es; file = some (format.print es) })
  unfolding Clients.load
  saved_loads es = rw (format.parse-print es)

  save_entries-IsSound :
      (es : List ClientEntry) → IsUnique es → IsSound (save_entries format written es).1
  unfolding save_entries
  save_entries-IsSound es u = record { unique = u; saved = saved_loads es }

  add-IsSound : (e : ClientEntry) (r : ClientRegistry) → IsSound r → IsSound (apply (add e) r)
  unfolding Clients.add
  add-IsSound e r s = save_entries-IsSound _ (add_entry_lem format written e r s.unique).0

  remove-IsSound :
      (x : String) (r : ClientRegistry) → IsSound r → IsSound (Clients.remove format written x r).1
  unfolding Clients.remove
  remove-IsSound x r s =
      elim (Bool-cases (ltb (length (filter (is_unnamed_by x) r.entries)) (length r.entries))) [
        | inl p ↦ rw p (save_entries-IsSound _ (filter-IsUnique _ r.entries s.unique))
        | inr p ↦
            rw
              (
                p,
                filter_keeps_all (is_unnamed_by x) r.entries
                    (sym (filter_shrinks (is_unnamed_by x) r.entries) ∙ p),
              )
              s
      ]

  touch-IsSound :
      (now : ℕ) (id : String) (caps : List String) (r : ClientRegistry)
      → IsSound r
      → IsSound (Clients.touch format written now id caps r).1
  unfolding Clients.touch
  touch-IsSound now id caps r s = elim (Option-cases (touch_entries now id caps r.entries)) [
    | inl n ↦ rw n s
    | inr (cs, p) ↦
        rw p (save_entries-IsSound cs (touch_entries-IsUnique now id caps r.entries p s.unique))
  ]

  -- From a sound registry, such as an empty one without a file, every sequence of additions, removals
  -- and touches whose writes succeed leads to a sound one: the ids are unique, and a load of the file
  -- gives what is in memory.
  pub apply_all-IsSound :
      (cs : List Change) (r : ClientRegistry) → IsSound r → IsSound (apply_all cs r)
  apply_all-IsSound [] r s = s
  apply_all-IsSound (add e ∷ cs) r s = apply_all-IsSound cs _ (add-IsSound e r s)
  apply_all-IsSound (remove x ∷ cs) r s = apply_all-IsSound cs _ (remove-IsSound x r s)
  apply_all-IsSound (touch now id caps ∷ cs) r s =
      apply_all-IsSound cs _ (touch-IsSound now id caps r s)
