-- ===== src/Router/Ranking.antt =====
-- `rank` lists the capable clients in the documented order, and does not depend on the order in which
-- the hub's map yields them.
use mathlib.Core.List.{Perm}
use subportal.Prelude.{
  ◌<◌, Ordering, String, ◌≡◌, ◌≢◌, ◌⊎◌, inl, inr, Bool, true, List, [], ◌∷◌, arith, All, filter,
  Bool-cases,
}
use subportal.Prelude.Order.{
  IsOrder, cmp_str, compare-IsOrder, cmp_by-IsOrder, cmp_reversed-IsOrder, cmp_then-IsOrder,
  cmp_str-IsOrder, cmp_str-eq, is_le, String-set,
}
use subportal.Prelude.Sort.{
  IsSorted, IsApart, sort_by-perm, sort_by-IsSorted, sort_by_unique, filter-perm,
}
use subportal.Control.{active, idle}
use subportal.Router.{ClientInfo, focus_rank, has_capability, cmp_clients, rank, fan_out}

-- The documented order: an active device before an idle one, then the one used last, then the smaller
-- endpoint id.
abbrev Precedes : ClientInfo → ClientInfo → Type 0
Precedes a b =
    ((a.focus ≡ active) × (b.focus ≡ idle))
    ⊎ ((a.focus ≡ b.focus)
        × ((b.last_active < a.last_active)
            ⊎ ((a.last_active ≡ b.last_active)
                × (cmp_str a.endpoint_id b.endpoint_id ≢ Ordering.gt))))

-- Every client precedes those behind it.
abbrev pub IsRanked : List ClientInfo → Type 0
IsRanked [] = Unit
IsRanked (c ∷ cs) = All (Precedes c) cs × IsRanked cs

-- No endpoint id occurs twice.
abbrev pub HasDistinctIds : List ClientInfo → Type 0
HasDistinctIds [] = Unit
HasDistinctIds (c ∷ cs) = All (λ d. d.endpoint_id ≢ c.endpoint_id) cs × HasDistinctIds cs

cmp_clients-IsOrder : IsOrder cmp_clients
cmp_clients-IsOrder = cmp_then-IsOrder (cmp_by-IsOrder (λ c. focus_rank c.focus) compare-IsOrder) (
    cmp_then-IsOrder (cmp_reversed-IsOrder (cmp_by-IsOrder (λ c. c.last_active) compare-IsOrder))
      (cmp_by-IsOrder (λ c. c.endpoint_id) cmp_str-IsOrder))

Precedes-of_le : (a b : ClientInfo) → is_le (cmp_clients a b) ≡ true → Precedes a b
Precedes-of_le a b h = ground arith

All-Precedes :
    (a : ClientInfo) (cs : List ClientInfo)
    → All (λ b. is_le (cmp_clients a b) ≡ true) cs
    → All (Precedes a) cs
All-Precedes a [] h = tt
All-Precedes a (b ∷ cs) h = (Precedes-of_le a b h.0, All-Precedes a cs h.1)

IsRanked-of_IsSorted : (cs : List ClientInfo) → IsSorted cmp_clients cs → IsRanked cs
IsRanked-of_IsSorted [] h = tt
IsRanked-of_IsSorted (c ∷ cs) h = (All-Precedes c cs h.0, IsRanked-of_IsSorted cs h.1)

-- `rank` returns the clients that have the capability, each as often as it is given, and each before
-- all that it precedes: active before idle, then the later use first, then by endpoint id.
pub rank_lem :
    (clients : List ClientInfo) (capability : String)
    → Perm (rank clients capability) (fan_out clients capability)
      × IsRanked (rank clients capability)
unfolding rank fan_out
rank_lem clients capability =
    (sort_by-perm cmp_clients _, IsRanked-of_IsSorted _ (sort_by-IsSorted cmp_clients-IsOrder _))

cmp_clients_ne : (a b : ClientInfo) → b.endpoint_id ≢ a.endpoint_id → cmp_clients a b ≢ Ordering.eq
cmp_clients_ne a b h e = ground (arith, cmp_str-eq a.endpoint_id b.endpoint_id)

All-apart-filter :
    (t : ClientInfo → Bool) (c : ClientInfo) (cs : List ClientInfo)
    → All (λ d. d.endpoint_id ≢ c.endpoint_id) cs
    → All (λ d. cmp_clients c d ≢ Ordering.eq) (filter t cs)
All-apart-filter t c [] h = tt
All-apart-filter t c (d ∷ cs) h = elim (Bool-cases (t d)) [
  | inl e ↦ rw e (cmp_clients_ne c d h.0, All-apart-filter t c cs h.1)
  | inr e ↦ rw e (All-apart-filter t c cs h.1)
]

filter-IsApart :
    (t : ClientInfo → Bool) (cs : List ClientInfo)
    → HasDistinctIds cs
    → IsApart cmp_clients (filter t cs)
filter-IsApart t [] h = tt
filter-IsApart t (c ∷ cs) h = elim (Bool-cases (t c)) [
  | inl e ↦ rw e (All-apart-filter t c cs h.0, filter-IsApart t cs h.1)
  | inr e ↦ rw e (filter-IsApart t cs h.1)
]

ClientInfo-set : IsSet ClientInfo
ClientInfo-set = hlevel String-set

-- Where no endpoint id occurs twice, `rank` gives the same list for every order of the clients: the
-- order in which the hub's map yields them has no influence.
pub rank_deterministic :
    (clients clients' : List ClientInfo) (capability : String)
    → Perm clients clients'
    → HasDistinctIds clients
    → rank clients capability ≡ rank clients' capability
unfolding rank
rank_deterministic clients clients' capability p h =
    sort_by_unique cmp_clients-IsOrder ClientInfo-set (filter-perm (has_capability capability) p)
      (filter-IsApart (has_capability capability) clients h)
