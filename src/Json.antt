-- ===== src/Json.antt =====
-- `serde_json::Value`, with natural numbers for its numbers: the program writes no others, and where it reads a number
-- another one is treated as a value that is no number.
use Prim.Native.Nat.{lt, eq, gt}
use Prim.Native.String.{compare}
use megaserver.Common.{
  ℕ, ◌^◌, String, Bool, Option, none, some, List, [], ◌∷◌, ◌==◌, ltb, if◌then◌else◌,
}

mutual
  pub data Json : Type 0 where
    null : Json
    bool : Bool → Json
    num : ℕ → Json
    str : String → Json
    arr : Items → Json
    obj : Fields → Json

  pub data Items : Type 0 where
    nil : Items
    cons : Json → Items → Items

  pub data Fields : Type 0 where
    end : Fields
    field : String → Json → Fields → Fields

-- The entries of a `serde_json::Map`, which is a `BTreeMap` here: sorted by key, each key once. An entry is added before
-- those that were there and replaces none of them.
abbrev pub add_field : String → Json → Fields → Fields
add_field key value end = field key value end
add_field key value (field k v rest) =
    let later = add_field key value rest in
    elim (compare key k) [
      | lt ↦ field key value (field k v rest)
      | eq ↦ field k v rest
      | gt ↦ field k v later
    ]

-- `json!({...})` from its fields, of which a later one of the same key replaces an earlier one.
abbrev pub fields : List (String × Json) → Fields
fields [] = end
fields ((k, v) ∷ rest) = add_field k v (fields rest)

abbrev pub object : List (String × Json) → Json
object l = obj (fields l)

-- `json!` of an `Option`.
abbrev pub opt_num : Option ℕ → Json
opt_num none = null
opt_num (some n) = num n

abbrev pub opt_str : Option String → Json
opt_str none = null
opt_str (some s) = str s

-- `map.get(key)`, `value.get(key)`, and the `as_` functions.
abbrev pub get_field : String → Fields → Option Json
get_field key end = none
get_field key (field k v rest) =
    let later = get_field key rest in if k == key then some v else later

abbrev pub get : String → Json → Option Json
get key (obj fs) = get_field key fs
get key _ = none

abbrev pub as_str : Option Json → Option String
as_str (some (str s)) = some s
as_str _ = none

abbrev pub as_u64 : Option Json → Option ℕ
as_u64 (some (num n)) = if ltb n (2 ^ 64) then some n else none
as_u64 _ = none

abbrev pub as_bool : Option Json → Option Bool
as_bool (some (bool b)) = some b
as_bool _ = none

-- `unwrap_or`
abbrev pub json_or : Json → Option Json → Json
json_or other none = other
json_or other (some v) = v
