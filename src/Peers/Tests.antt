-- ===== src/Peers/Tests.antt =====
-- Concrete runs of the theorems on the registries.
use subportal.Prelude.{refl, none, List, [], ◌∷◌}
use subportal.Prelude.Order.{str_ne}
use subportal.Peers.SampleFormat.{sample_format}
use subportal.Peers.Clients
use subportal.Peers.Clients.{ClientEntry, ClientRegistry, client_identified}
use subportal.Peers.Lookup.{IsUnique}
use subportal.Peers.Persistence.{Change, add, remove, touch, apply_all, IsSound, apply_all-IsSound}

abbrev phone : ClientEntry
phone = record {
  endpoint_id = "aa";
  name = "phone";
  enrolled_at = 1;
  last_seen = none;
  capabilities = "Confirm" ∷ [];
}

abbrev laptop : ClientEntry
laptop = record phone { endpoint_id = "bb"; name = "laptop" }

abbrev two : ClientRegistry
two = record { entries = phone ∷ laptop ∷ []; file = none }

two-IsUnique : IsUnique two.entries
two-IsUnique = ((str_ne "bb" "aa" refl, tt), (tt, tt))

abbrev empty : ClientRegistry
empty = record { entries = []; file = none }

empty-IsSound : IsSound sample_format empty
unfolding Clients.load
empty-IsSound = record { unique = tt; saved = refl }

abbrev changes : List Change
changes = add phone ∷ add laptop ∷ touch 5 "aa" [] ∷ remove "laptop" ∷ []

apply_all-IsSound_example : IsSound sample_format (apply_all sample_format changes empty)
apply_all-IsSound_example = apply_all-IsSound sample_format changes empty empty-IsSound
