-- ===== src/Protocol/SampleJson.antt =====
-- A small JSON library that behaves as `Json` asks, for the concrete runs.
use subportal.Prelude.{
  ℕ, String, str_eq, eq_iff, ◌≡◌, refl, Bool, true, false, Option, none, some, List, [], ◌∷◌, arith,
  if◌then◌else◌, ap,
}
use subportal.Protocol.Json.{Json}

mutual
  pub data Value : Type 0 where
    null : Value
    string : String → Value
    number : ℕ → Value
    boolean : Bool → Value
    array : Items → Value
    object : Fields → Value

  pub data Items : Type 0 where
    nil : Items
    cons : Value → Items → Items

  pub data Fields : Type 0 where
    end : Fields
    field : String → Value → Fields → Fields

abbrev from_items : Items → List Value
from_items nil = []
from_items (cons v vs) = v ∷ from_items vs

abbrev to_items : List Value → Items
to_items [] = nil
to_items (v ∷ vs) = cons v (to_items vs)

abbrev lookup : String → Fields → Option Value
lookup k end = none
lookup k (field j v fs) = if str_eq j k then some v else lookup k fs

abbrev insert : String → Value → Fields → Fields
insert k v end = field k v end
insert k v (field j w fs) = if str_eq j k then field k v fs else field j w (insert k v fs)

pub lookup-insert :
    (k j : String) (v : Value) (m : Fields)
    → lookup j (insert k v m) ≡ (if str_eq k j then some v else lookup j m)
lookup-insert k j v end = refl
lookup-insert k j v (field i w m) =
    ground (arith, eq_iff k j, eq_iff i k, eq_iff i j, lookup-insert k j v m)

pub from_items-to_items : (vs : List Value) → from_items (to_items vs) ≡ vs
from_items-to_items [] = refl
from_items-to_items (v ∷ vs) = ap (◌∷◌ v) (from_items-to_items vs)

abbrev is_null : Value → Bool
is_null null = true
is_null _ = false

abbrev as_str : Value → Option String
as_str (string s) = some s
as_str _ = none

abbrev as_u64 : Value → Option ℕ
as_u64 (number n) = some n
as_u64 _ = none

abbrev as_bool : Value → Option Bool
as_bool (boolean b) = some b
as_bool _ = none

abbrev as_array : Value → Option (List Value)
as_array (array vs) = some (from_items vs)
as_array _ = none

abbrev as_object : Value → Option Fields
as_object (object fs) = some fs
as_object _ = none

abbrev pub sample_json : Json
sample_json = record {
  Value = Value;
  Map = Fields;
  empty = end;
  lookup = lookup;
  insert = insert;
  null = null;
  string = string;
  number = number;
  boolean = boolean;
  array = λ vs. array (to_items vs);
  object = object;
  is_null = is_null;
  as_str = as_str;
  as_u64 = as_u64;
  as_bool = as_bool;
  as_array = as_array;
  as_object = as_object;
  lookup-empty = λ k. refl;
  lookup-insert = lookup-insert;
  is_null-null = refl;
  is_null-string = λ s. refl;
  as_str-string = λ s. refl;
  as_u64-number = λ n h. refl;
  as_bool-boolean = λ b. refl;
  as_array-array = λ vs. ap some (from_items-to_items vs);
  as_object-object = λ m. refl;
}
