-- ===== src/Shared/Json.antt =====
-- JSON values as Python's `json` reads them, and how Python indexes and tests them. The services
-- store, receive and send such values in many places.
pub mod Codec
pub mod Postfix
use ai_document_analysis.Prelude.{
  ℕ, ◌≡◌, refl, ap, Bool, true, false, not, List, [], ◌∷◌, Text, ◌==◌, text-Eq, nat_eq, is_empty,
  if◌then◌else◌,
}

-- A number that is no natural number is kept as its literal; it is not zero.
mutual
  pub data Json : Type 0 where
    null : Json
    bool : Bool → Json
    number : ℕ → Json
    other_number : Text → Json
    str : Text → Json
    arr : Items → Json
    obj : Fields → Json

  pub data Items : Type 0 where
    nil : Items
    cons : Json → Items → Items

  pub data Fields : Type 0 where
    end : Fields
    field : Text → Json → Fields → Fields

-- How an index expression ends.
pub data Fetched : Type 0 where
  value : Json → Fetched
  key_error index_error type_error : Fetched

abbrev pub find : Text → Fields → Fetched
find key end = key_error
find key (field k j fields) = if k == key then value j else find key fields

-- `j["key"]`
abbrev pub at_key : Text → Json → Fetched
at_key key (obj fields) = find key fields
at_key key null = type_error
at_key key (bool b) = type_error
at_key key (number n) = type_error
at_key key (other_number t) = type_error
at_key key (str t) = type_error
at_key key (arr items) = type_error

-- `j[0]`
abbrev pub at_zero : Json → Fetched
at_zero (arr nil) = index_error
at_zero (arr (cons j items)) = value j
at_zero (str []) = index_error
at_zero (str (c ∷ t)) = value (str (c ∷ []))
at_zero (obj fields) = key_error
at_zero null = type_error
at_zero (bool b) = type_error
at_zero (number n) = type_error
at_zero (other_number t) = type_error

infixl 5 ◌then_at◌
abbrev pub ◌then_at◌ : Fetched → (Json → Fetched) → Fetched
value j then_at f = f j
key_error then_at f = key_error
index_error then_at f = index_error
type_error then_at f = type_error

-- `if j`
abbrev pub is_truthy : Json → Bool
is_truthy null = false
is_truthy (bool b) = b
is_truthy (number n) = not (nat_eq n 0)
is_truthy (other_number t) = true
is_truthy (str t) = not (is_empty t)
is_truthy (arr nil) = false
is_truthy (arr (cons j items)) = true
is_truthy (obj end) = false
is_truthy (obj (field k j fields)) = true

-- A Python list of JSON values, and back.
abbrev pub items_of : List Json → Items
items_of [] = nil
items_of (j ∷ js) = cons j (items_of js)

abbrev pub list_of : Items → List Json
list_of nil = []
list_of (cons j items) = j ∷ list_of items

pub list_of-items_of : (js : List Json) → list_of (items_of js) ≡ js
list_of-items_of [] = refl
list_of-items_of (j ∷ js) = ap (λ is. j ∷ is) (list_of-items_of js)
