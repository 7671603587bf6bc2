-- ===== src/Hub/Ping.antt =====
-- What `Ping` reports, and the ids that notifications get.
use mathlib.Core.List.{Perm}
use mathlib.Core.Option.{some-injective}
use subportal.Prelude.{
  Ordering, String, ◌≡◌, refl, Bool, true, false, ◌||◌, some, List, [], ◌∷◌, ◌++◌, map, any, All,
  sym, ap, ◌∙◌, str_eq, eq_iff, Bool-cases, inl, inr, arith, ok,
}
use subportal.Prelude.Order.{cmp_str, cmp_str-IsOrder, cmp_str-eq, is_le}
use subportal.Prelude.Sort.{IsSorted, sort_by-perm, sort_by-IsSorted, any-perm}
use subportal.Prelude.Table.{values}
use subportal.Protocol.{ping, pong, version}
use subportal.Hub.{
  ConnectedClient, Hub, Env, Answer, dedup_from, dedup, all_capabilities, handle_direct,
}

-- Each text is smaller than all behind it, so none occurs twice.
abbrev IsAscending : List String → Type 0
IsAscending [] = Unit
IsAscending (x ∷ xs) = All (λ y. cmp_str x y ≡ Ordering.lt) xs × IsAscending xs

-- Whether the text is in the list.
abbrev pub is_in : String → List String → Bool
is_in x ys = any (λ y. str_eq y x) ys

is_in-dedup_from : (x y : String) (ys : List String) → is_in x (dedup_from y ys) ≡ is_in x (y ∷ ys)
unfolding dedup_from
is_in-dedup_from x y [] = refl
is_in-dedup_from x y (z ∷ zs) = elim (Bool-cases (str_eq y z)) [
  | inl e ↦ rw e (is_in-dedup_from x y zs ∙ ground (arith, eq_iff y z))
  | inr e ↦ rw e (ap (λ b. str_eq y x || b) (is_in-dedup_from x z zs))
]

is_in-dedup : (x : String) (ys : List String) → is_in x (dedup ys) ≡ is_in x ys
unfolding dedup
is_in-dedup x [] = refl
is_in-dedup x (y ∷ ys) = is_in-dedup_from x y ys

All-dedup_from :
    (P : String → Type 0) (y : String) (ys : List String) → P y → All P ys → All P (dedup_from y ys)
unfolding dedup_from
All-dedup_from P y [] p h = (p, tt)
All-dedup_from P y (z ∷ zs) p h = elim (Bool-cases (str_eq y z)) [
  | inl e ↦ rw e (All-dedup_from P y zs p h.1)
  | inr e ↦ rw e (p, All-dedup_from P z zs h.0 h.1)
]

lt_of_ne :
    (x y : String) → is_le (cmp_str x y) ≡ true → str_eq x y ≡ false → cmp_str x y ≡ Ordering.lt
lt_of_ne x y h e = ground (arith, cmp_str-eq x y, eq_iff x y)

lt_of_lt_of_le :
    (x y z : String)
    → cmp_str x y ≡ Ordering.lt
    → is_le (cmp_str y z) ≡ true
    → cmp_str x z ≡ Ordering.lt
lt_of_lt_of_le x y z h k = go (cmp_str y z) refl k
  where
    go : (o : Ordering) → cmp_str y z ≡ o → is_le o ≡ true → cmp_str x z ≡ Ordering.lt
    go Ordering.lt e l = cmp_str-IsOrder.before x y z h e
    go Ordering.eq e l = ap (cmp_str x) (sym (cmp_str-eq y z e)) ∙ h
    go Ordering.gt e l = absurd (cc)

All-lt :
    (x y : String) (zs : List String)
    → cmp_str x y ≡ Ordering.lt
    → All (λ z. is_le (cmp_str y z) ≡ true) zs
    → All (λ z. cmp_str x z ≡ Ordering.lt) zs
All-lt x y [] h a = tt
All-lt x y (z ∷ zs) h a = (lt_of_lt_of_le x y z h a.0, All-lt x y zs h a.1)

dedup_from-IsAscending :
    (y : String) (ys : List String) → IsSorted cmp_str (y ∷ ys) → IsAscending (dedup_from y ys)
unfolding dedup_from
dedup_from-IsAscending y [] s = (tt, tt)
dedup_from-IsAscending y (z ∷ zs) (a, (b, c)) = elim (Bool-cases (str_eq y z)) [
  | inl e ↦ rw e (dedup_from-IsAscending y zs (a.1, c))
  | inr e ↦
      let l = lt_of_ne y z a.0 e in
      rw e (All-dedup_from _ z zs l (All-lt y z zs l b), dedup_from-IsAscending z zs (b, c))
]

dedup-IsAscending : (ys : List String) → IsSorted cmp_str ys → IsAscending (dedup ys)
unfolding dedup
dedup-IsAscending [] s = tt
dedup-IsAscending (y ∷ ys) s = dedup_from-IsAscending y ys s

is_in-append : (x : String) (ys zs : List String) → is_in x (ys ++ zs) ≡ (is_in x ys || is_in x zs)
is_in-append x [] zs = refl
is_in-append x (y ∷ ys) zs = ground (arith, is_in-append x ys zs)

is_in-all_capabilities :
    (x : String) (cs : List ConnectedClient)
    → is_in x (all_capabilities cs) ≡ any (λ (c : ConnectedClient). is_in x c.capabilities) cs
unfolding all_capabilities
is_in-all_capabilities x [] = refl
is_in-all_capabilities x (c ∷ cs) =
    is_in-append x c.capabilities (all_capabilities cs)
    ∙ ap (λ b. is_in x c.capabilities || b) (is_in-all_capabilities x cs)

-- What a ping reports of the connected clients.
pub record Reported (clients : List ConnectedClient) (capabilities names : List String)
    : Type 0 where
  pub ascending : IsAscending capabilities
  pub complete :
      (x : String)
      → is_in x capabilities ≡ any (λ (c : ConnectedClient). is_in x c.capabilities) clients
  pub named : Perm names (map (λ (c : ConnectedClient). c.name) clients)
  pub sorted : IsSorted cmp_str names

-- A ping is answered with the capabilities that some connected client has, in ascending order and each
-- once, and with the names of all connected clients, sorted; the hub stays as it is.
handle_direct-ping :
    (env : Env) (hub : Hub) {a : Answer}
    → handle_direct env ping hub ≡ some a
    → (capabilities : List String) × (names : List String) × (a
        ≡ (ok (pong capabilities version names hub.endpoint_id), hub, []))
      × Reported (values hub.clients) capabilities names
unfolding handle_direct
handle_direct-ping env hub e = (
  _,
  _,
  sym (some-injective _ _ e),
  record {
    ascending =
        dedup-IsAscending _
          (sort_by-IsSorted cmp_str-IsOrder (all_capabilities (values hub.clients)));
    complete = λ x.
        is_in-dedup x _
        ∙ any-perm (λ y. str_eq y x) (sort_by-perm cmp_str (all_capabilities (values hub.clients)))
        ∙ is_in-all_capabilities x (values hub.clients);
    named = sort_by-perm cmp_str _;
    sorted = sort_by-IsSorted cmp_str-IsOrder _;
  },
)
