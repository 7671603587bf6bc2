-- ===== src/Protocol/Json.antt =====
-- What the program uses of `serde_json`: its values, its maps and their accessors, with the documented
-- behaviour of each. The crate is not part of the repository, so it is a parameter.
use subportal.Prelude.{
  ℕ, ◌^◌, ◌<◌, String, str_eq, ◌≡◌, Bool, true, false, Option, none, some, List, if◌then◌else◌,
}

pub record Json : Type 1 where
  pub Value : Type 0
  pub Map : Type 0
  pub empty : Map
  pub lookup : String → Map → Option Value
  pub insert : String → Value → Map → Map
  pub null : Value
  pub string : String → Value
  pub number : ℕ → Value
  pub boolean : Bool → Value
  pub array : List Value → Value
  pub object : Map → Value
  pub is_null : Value → Bool
  pub as_str : Value → Option String
  pub as_u64 : Value → Option ℕ
  pub as_bool : Value → Option Bool
  pub as_array : Value → Option (List Value)
  pub as_object : Value → Option Map
  pub lookup-empty : (k : String) → lookup k empty ≡ none
  pub lookup-insert :
      (k j : String) (v : Value) (m : Map)
      → lookup j (insert k v m) ≡ (if str_eq k j then some v else lookup j m)
  pub is_null-null : is_null null ≡ true
  pub is_null-string : (s : String) → is_null (string s) ≡ false
  pub as_str-string : (s : String) → as_str (string s) ≡ some s
  pub as_u64-number : (n : ℕ) → n < 2 ^ 64 → as_u64 (number n) ≡ some n
  pub as_bool-boolean : (b : Bool) → as_bool (boolean b) ≡ some b
  pub as_array-array : (vs : List Value) → as_array (array vs) ≡ some vs
  pub as_object-object : (m : Map) → as_object (object m) ≡ some m
