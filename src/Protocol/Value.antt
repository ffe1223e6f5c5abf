-- ===== src/Protocol/Value.antt =====
-- What `JSON.parse` leaves of a payload, read by code that trusts none of its fields. Numbers are
-- the integers and the infinity that an overlong literal gives; `undefined` is what a missing
-- field reads as.
use spotjam.Prelude.{ℤ, String, Bool, ◌==◌, if◌then◌else◌, Option, none, some, List, [], ◌∷◌}

mutual
  pub data Value : Type 0 where
    undefined : Value
    null : Value
    bool : Bool → Value
    num : ℤ → Value
    infinite : Value
    str : String → Value
    arr : Items → Value
    obj : Fields → Value

  pub data Items : Type 0 where
    nil : Items
    cons : Value → Items → Items

  pub data Fields : Type 0 where
    end : Fields
    entry : String → Value → Fields → Fields

unfoldable pub find_field : String → Fields → Value
find_field name end = undefined
find_field name (entry key v rest) = if key == name then v else find_field name rest

-- `value.name`
unfoldable pub field : String → Value → Value
unfolding find_field
field name (obj fs) = find_field name fs
field name v = undefined

unfoldable pub to_list : Items → List Value
to_list nil = []
to_list (cons v vs) = v ∷ to_list vs

-- `typeof value === "string"`
unfoldable pub string_of : Value → Option String
string_of (str s) = some s
string_of v = none

-- `typeof value === "boolean"`
unfoldable pub bool_of : Value → Option Bool
bool_of (bool b) = some b
bool_of v = none

-- `typeof value === "string" && value.length > 0`
unfoldable pub non_empty_string : Value → Option String
non_empty_string (str s) = if s == "" then none else some s
non_empty_string v = none

-- Every value read, or none.
unfoldable pub all_of {ℓ} : {A : Type ℓ} → (Value → Option A) → List Value → Option (List A)
all_of read [] = some []
all_of read (v ∷ vs) = elim (read v) [
  | none ↦ none
  | some a ↦ elim (all_of read vs) [ none ↦ none | some rest ↦ some (a ∷ rest) ]
]

-- `Array.isArray(value) && value.every(...)`
unfoldable pub array_of {ℓ} : {A : Type ℓ} → (Value → Option A) → Value → Option (List A)
unfolding to_list all_of
array_of read (arr vs) = all_of read (to_list vs)
array_of read v = none
