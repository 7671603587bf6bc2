-- ===== src/Peers/Clients.antt =====
-- `ClientRegistry`: the agent's enrolled clients.
use mathlib.Core.Option
use subportal.Prelude.{
  ℕ, String, str_eq, Bool, Option, none, some, List, [], ◌∷◌, if◌then◌else◌, Result, ok,
}
use subportal.Peers.Registry.{
  RegistryError, SaveIo, FileFormat, Registry, Identified, find_id, save_entries, load_file,
  add_entry, remove_entry,
}

-- `struct ClientEntry`
pub record ClientEntry : Type 0 where
  pub endpoint_id : String
  pub name : String
  pub enrolled_at : ℕ
  pub last_seen : Option ℕ
  pub capabilities : List String

-- `struct ClientRegistry`
abbrev pub ClientRegistry : Type 0
ClientRegistry = Registry ClientEntry

instance abbrev pub client_identified : Identified ClientEntry
client_identified = record { id_of = λ e. e.endpoint_id; name_of = λ e. e.name }

unfoldable pub find_by_id : String → ClientRegistry → Option ClientEntry
unfolding find_id
find_by_id endpoint_id r = find_id endpoint_id r.entries

abbrev pub list : ClientRegistry → List ClientEntry
list r = r.entries

-- `iter_mut().find(..)` and the two assignments: the first entry with the id, if there is one.
unfoldable pub touch_entries :
    ℕ → String → List String → List ClientEntry → Option (List ClientEntry)
touch_entries now endpoint_id capabilities [] = none
touch_entries now endpoint_id capabilities (c ∷ cs) =
    let rest = Option.map (◌∷◌ c) (touch_entries now endpoint_id capabilities cs) in
    if str_eq c.endpoint_id endpoint_id
    then some (record c { last_seen = some now; capabilities = capabilities } ∷ cs)
    else rest

module _ (format : FileFormat ClientEntry) where
  unfoldable pub load : Bool → Option String → Result ClientRegistry RegistryError
  unfolding load_file
  load = load_file format

  unfoldable pub save : SaveIo → ClientRegistry → Result (Unit {0}) RegistryError × ClientRegistry
  unfolding save_entries
  save io r = save_entries format io r.entries

  unfoldable pub add :
      SaveIo → ClientEntry → ClientRegistry → Result (Unit {0}) RegistryError × ClientRegistry
  unfolding add_entry
  add = add_entry format

  unfoldable pub remove :
      SaveIo → String → ClientRegistry → Result Bool RegistryError × ClientRegistry
  unfolding remove_entry
  remove = remove_entry format

  unfoldable pub touch_save :
      SaveIo
      → ClientRegistry
      → Option (List ClientEntry)
      → Result (Unit {0}) RegistryError × ClientRegistry
  touch_save io r none = (ok tt, r)
  touch_save io r (some cs) = save_entries format io cs

  unfoldable pub touch :
      SaveIo
      → ℕ
      → String
      → List String
      → ClientRegistry
      → Result (Unit {0}) RegistryError × ClientRegistry
  unfolding touch_save save_entries
  touch io now endpoint_id capabilities r =
      touch_save io r (touch_entries now endpoint_id capabilities r.entries)
