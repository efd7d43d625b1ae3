-- ===== src/Json.antt =====
-- What pkg/config uses of encoding/json, on values that are read already: a JSON value, the text
-- of a string, `Unmarshal` into a Go struct, and the members that `Marshal` writes for its fields.
pub mod Fold
pub mod Struct
pub mod Members
pub mod ReadBack
use vfkit.Base.{Bool, true, false, List, [], ◌∷◌, ◌≡◌, refl, ap}
use vfkit.Text.{Text}

-- A number is known by its text, and an object has its members in the order of the text.
mutual
  pub data Json : Type 0 where
    null : Json
    boolean : Bool → Json
    number : Text → Json
    string : Text → Json
    array : Elements → Json
    object : Fields → Json

  pub data Elements : Type 0 where
    no_element : Elements
    element : Json → Elements → Elements

  pub data Fields : Type 0 where
    no_field : Fields
    field : Text → Json → Fields → Fields

-- A key with its value
abbrev pub Member : Type 0
Member = Text × Json

unfoldable pub members : Fields → List Member
members no_field = []
members (field key value rest) = (key, value) ∷ members rest

unfoldable pub to_fields : List Member → Fields
to_fields [] = no_field
to_fields ((key, value) ∷ rest) = field key value (to_fields rest)

unfoldable pub elements : Elements → List Json
elements no_element = []
elements (element value rest) = value ∷ elements rest

unfoldable pub to_elements : List Json → Elements
to_elements [] = no_element
to_elements (value ∷ rest) = element value (to_elements rest)

pub members-to_fields : (l : List Member) → members (to_fields l) ≡ l
unfolding members to_fields
members-to_fields [] = refl
members-to_fields (m ∷ l) = ap (λ r. m ∷ r) (members-to_fields l)

pub elements-to_elements : (l : List Json) → elements (to_elements l) ≡ l
unfolding elements to_elements
elements-to_elements [] = refl
elements-to_elements (v ∷ l) = ap (λ r. v ∷ r) (elements-to_elements l)
