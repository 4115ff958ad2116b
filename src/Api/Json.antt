-- ===== src/Api/Json.antt =====
-- The values that the API types as `unknown`: parsed JSON.
use Prim.Native.Nat.{suc}
use industrial_safety_intell.Prelude.{
  ℕ, String, Bool, List, [], ◌∷◌, Option, none, some, if◌then◌else◌,
}
use industrial_safety_intell.Prelude.Eq.{◌==◌, string_eq}
use industrial_safety_intell.Prelude.Decimal.{decimal}

mutual
  pub data Json (N : Type 0) : Type 0 where
    null : Json N
    bool : Bool → Json N
    num : N → Json N
    str : String → Json N
    arr : Items N → Json N
    obj : Fields N → Json N

  pub data Items (N : Type 0) : Type 0 where
    nil : Items N
    cons : Json N → Items N → Items N

  pub data Fields (N : Type 0) : Type 0 where
    end : Fields N
    field : String → Json N → Fields N → Fields N

module _ {N : Type 0} where
  -- `record[key]`, where an object has each key once; `none` is `undefined`
  unfoldable pub get : Fields N → String → Option (Json N)
  get end key = none
  get (field k v rest) key = let later = get rest key in if k == key then some v else later

  -- `Object.entries` of an object and of an array
  unfoldable pub field_entries : Fields N → List (String × Json N)
  field_entries end = []
  field_entries (field k v rest) = (k, v) ∷ field_entries rest

  unfoldable pub item_entries : ℕ → Items N → List (String × Json N)
  unfolding decimal
  item_entries i nil = []
  item_entries i (cons v rest) = (decimal i, v) ∷ item_entries (suc i) rest

  -- `typeof value === "number"`, with the value
  unfoldable pub as_number : Option (Json N) → Option N
  as_number (some (num n)) = some n
  as_number _ = none

  unfoldable pub as_string : Option (Json N) → Option String
  as_string (some (str s)) = some s
  as_string _ = none

  -- `Array.isArray(value)`, with the value
  unfoldable pub as_array : Option (Json N) → Option (Items N)
  as_array (some (arr xs)) = some xs
  as_array _ = none

  -- `typeof value === "object" && value !== null`, with its entries: an array is an object
  unfoldable pub as_entries : Option (Json N) → Option (List (String × Json N))
  unfolding field_entries item_entries
  as_entries (some (obj fs)) = some (field_entries fs)
  as_entries (some (arr xs)) = some (item_entries 0 xs)
  as_entries _ = none
