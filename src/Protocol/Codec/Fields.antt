-- ===== src/Protocol/Codec/Fields.antt =====
-- Reading one field of a request's content.
use subportal.Prelude.{String, str_eq, eq_refl, ◌≡◌, false, Option, none, some}
use subportal.Protocol.Json.{Json}
use subportal.Protocol.Codec.{opt_value, str_field, opt_str_value, opt_field}

module _ (j : Json) where
  open j use {Value, Map, empty, lookup, insert, string}

  pub str_field-insert :
      (k i : String) (v : Value) (m : Map)
      → str_eq k i ≡ false
      → str_field j i (insert k v m) ≡ str_field j i m
  unfolding str_field
  str_field-insert k i v m h = rw (j.lookup-insert k i v m, h)

  pub str_field-insert_self :
      (k s : String) (m : Map) → str_field j k (insert k (string s) m) ≡ some s
  unfolding str_field
  str_field-insert_self k s m = rw (j.lookup-insert k k (string s) m, eq_refl k) (j.as_str-string s)

  pub opt_field-insert :
      (k i : String) (v : Value) (m : Map)
      → str_eq k i ≡ false
      → opt_field j i (insert k v m) ≡ opt_field j i m
  unfolding opt_field
  opt_field-insert k i v m h = rw (j.lookup-insert k i v m, h)

  opt_str_value-opt_value : (o : Option String) → opt_str_value j (opt_value j o) ≡ some o
  unfolding opt_str_value
  opt_str_value-opt_value none = rw j.is_null-null
  opt_str_value-opt_value (some s) = rw (j.is_null-string s, j.as_str-string s)

  pub opt_field-insert_self :
      (k : String) (o : Option String) (m : Map)
      → opt_field j k (insert k (opt_value j o) m) ≡ some o
  unfolding opt_field
  opt_field-insert_self k o m =
      rw (j.lookup-insert k k (opt_value j o) m, eq_refl k) (opt_str_value-opt_value o)
