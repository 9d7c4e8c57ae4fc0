-- ===== src/Codex/Json.antt =====
-- The JSON values of the app-server's protocol: serde_json's `Value`, with the numbers as a parameter.
-- An object is its entries in the order of the map, which is that of the keys.
use portcode.Common.{
  ℕ, suc, Bool, true, false, ◌&&◌, ◌||◌, [], ◌∷◌, Option, none, some, if◌then◌else◌, ltb, ◌==◌,
  Text, same,
}

mutual
  pub data Value (Number : Type 0) : Type 0 where
    null : Value Number
    bool : Bool → Value Number
    number : Number → Value Number
    string : Text → Value Number
    array : Values Number → Value Number
    object : Fields Number → Value Number

  pub data Values (Number : Type 0) : Type 0 where
    nil : Values Number
    cons : Value Number → Values Number → Values Number

  pub data Fields (Number : Type 0) : Type 0 where
    end : Fields Number
    field : Text → Value Number → Fields Number → Fields Number

-- `str`'s order.
unfoldable pub precedes : Text → Text → Bool
precedes [] [] = false
precedes [] (y ∷ ys) = true
precedes (x ∷ xs) [] = false
precedes (x ∷ xs) (y ∷ ys) = ltb x y || (x == y && precedes xs ys)

module _ {Number : Type 0} where
  abbrev pub value_count : Values Number → ℕ
  value_count nil = 0
  value_count (cons v vs) = suc (value_count vs)

  -- `Map::get`, `Map::insert` and `Map::is_empty`
  unfoldable pub get_field : Text → Fields Number → Option (Value Number)
  get_field key end = none
  get_field key (field k v fs) = if same k key then some v else get_field key fs

  unfoldable pub insert_field : Text → Value Number → Fields Number → Fields Number
  insert_field key value end = field key value end
  insert_field key value (field k v fs) =
      let rest = insert_field key value fs in
      if same k key
      then field key value fs
      else if precedes key k
      then field key value (field k v fs)
      else field k v rest

  unfoldable pub no_fields : Fields Number → Bool
  no_fields end = true
  no_fields (field k v fs) = false

  -- `Value::get`, `as_str`, `as_bool`, `as_object`, `as_array`
  abbrev pub get : Text → Value Number → Option (Value Number)
  get key (object fs) = get_field key fs
  get key _ = none

  abbrev pub as_str : Value Number → Option Text
  as_str (string t) = some t
  as_str _ = none

  abbrev pub as_bool : Value Number → Option Bool
  as_bool (bool b) = some b
  as_bool _ = none

  abbrev pub as_object : Value Number → Option (Fields Number)
  as_object (object fs) = some fs
  as_object _ = none
