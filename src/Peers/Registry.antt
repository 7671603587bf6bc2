-- ===== src/Peers/Registry.antt =====
-- `ClientRegistry` and `ServerRegistry`. The two are written alike, once for each kind of entry.
use subportal.Prelude.{
  String, str_eq, Bool, true, false, not, ◌&&◌, Option, none, some, List, [], ◌∷◌, ◌++◌, filter,
  find, length, ltb, if◌then◌else◌, Result, ok, err, ◌≡◌,
}

pub data RegistryError : Type 0 where
  read_failed parse_failed save_failed : RegistryError

-- How a write of the file ends: done, or failed with some text or no file left behind.
pub data SaveIo : Type 0 where
  written : SaveIo
  write_failed : Option String → SaveIo

-- `serde_json` on a list of entries, which the program takes from the crate.
pub record FileFormat (E : Type 0) : Type 0 where
  pub print : List E → String
  pub parse : String → Option (List E)
  pub parse-print : (es : List E) → parse (print es) ≡ some es

pub record Registry (E : Type 0) : Type 0 where
  pub entries : List E
  pub file : Option String

-- What both registries do, for entries with an endpoint id and a name.
pub record Identified (E : Type 0) : Type 0 where
  pub id_of : E → String
  pub name_of : E → String

module _ {E : Type 0} ⦃i : Identified E⦄ where
  open i use {id_of, name_of}

  -- `|c| c.endpoint_id != id`
  abbrev pub has_other_id : String → E → Bool
  has_other_id id e = not (str_eq (id_of e) id)

  -- `|c| c.endpoint_id != x && c.name != x`
  abbrev pub is_unnamed_by : String → E → Bool
  is_unnamed_by x e = not (str_eq (id_of e) x) && not (str_eq (name_of e) x)

  -- `iter().find(|c| c.endpoint_id == endpoint_id)`
  unfoldable pub find_id : String → List E → Option E
  find_id id es = find (λ e. str_eq (id_of e) id) es

  module _ (format : FileFormat E) where
    open format use {print, parse}

    unfoldable pub save_entries : SaveIo → List E → Result (Unit {0}) RegistryError × Registry E
    save_entries written es = (ok tt, record { entries = es; file = some (print es) })
    save_entries (write_failed left) es = (err save_failed, record { entries = es; file = left })

    unfoldable pub parse_file : Option (List E) → Option String → Result (Registry E) RegistryError
    parse_file none file = err parse_failed
    parse_file (some es) file = ok (record { entries = es; file = file })

    unfoldable pub load_file : Bool → Option String → Result (Registry E) RegistryError
    unfolding parse_file
    load_file read_ok none = ok (record { entries = []; file = none })
    load_file read_ok (some text) =
        if read_ok then parse_file (parse text) (some text) else err read_failed

    unfoldable pub add_entry :
        SaveIo → E → Registry E → Result (Unit {0}) RegistryError × Registry E
    unfolding save_entries
    add_entry io entry r =
        save_entries io (filter (has_other_id (id_of entry)) r.entries ++ (entry ∷ []))

    -- `self.save().await?; Ok(true)`
    unfoldable pub removed_saved :
        Result (Unit {0}) RegistryError × Registry E → Result Bool RegistryError × Registry E
    removed_saved (ok u, r) = (ok true, r)
    removed_saved (err e, r) = (err e, r)

    unfoldable pub remove_entry :
        SaveIo → String → Registry E → Result Bool RegistryError × Registry E
    unfolding save_entries removed_saved
    remove_entry io id_or_name r =
        let kept = filter (is_unnamed_by id_or_name) r.entries in
        if ltb (length kept) (length r.entries)
        then removed_saved (save_entries io kept)
        else (ok false, record r { entries = kept })
