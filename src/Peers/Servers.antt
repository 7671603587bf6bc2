-- ===== src/Peers/Servers.antt =====
-- `ServerRegistry`: the servers that a client device is enrolled with.
use subportal.Prelude.{ℕ, String, Bool, Option, List, Result}
use subportal.Peers.Registry.{
  RegistryError, SaveIo, FileFormat, Registry, Identified, find_id, save_entries, load_file,
  add_entry, remove_entry,
}

-- `struct ServerEntry`
pub record ServerEntry : Type 0 where
  pub endpoint_id : String
  pub name : String
  pub addrs : List String
  pub relay_url : Option String
  pub enrolled_at : ℕ

-- `struct ServerRegistry`
abbrev pub ServerRegistry : Type 0
ServerRegistry = Registry ServerEntry

instance abbrev pub server_identified : Identified ServerEntry
server_identified = record { id_of = λ e. e.endpoint_id; name_of = λ e. e.name }

unfoldable pub find_by_id : String → ServerRegistry → Option ServerEntry
unfolding find_id
find_by_id endpoint_id r = find_id endpoint_id r.entries

abbrev pub list : ServerRegistry → List ServerEntry
list r = r.entries

module _ (format : FileFormat ServerEntry) where
  unfoldable pub load : Bool → Option String → Result ServerRegistry RegistryError
  unfolding load_file
  load = load_file format

  unfoldable pub save : SaveIo → ServerRegistry → Result (Unit {0}) RegistryError × ServerRegistry
  unfolding save_entries
  save io r = save_entries format io r.entries

  unfoldable pub add :
      SaveIo → ServerEntry → ServerRegistry → Result (Unit {0}) RegistryError × ServerRegistry
  unfolding add_entry
  add = add_entry format

  unfoldable pub remove :
      SaveIo → String → ServerRegistry → Result Bool RegistryError × ServerRegistry
  unfolding remove_entry
  remove = remove_entry format
