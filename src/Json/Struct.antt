-- ===== src/Json/Struct.antt =====
-- `json.Unmarshal` into a Go struct.
use vfkit.Base.{
  ℕ, String, Bool, List, [], ◌∷◌, Option, none, some, if◌then◌else◌, Error, errorf, Result, ok, err,
}
use vfkit.Base.Int.{ℤ}
use vfkit.Text.{Text, codes, text_eq}
use vfkit.Decimal.{parse_uint, parse_int}
use vfkit.Json.{Json, null, boolean, number, string, array, object, Member, members}
use vfkit.Json.Fold.{fold_name}

-- The message of an `UnmarshalTypeError` begins with the kind of the value.
unfoldable pub type_error : Json → Error
type_error null = errorf "json: cannot unmarshal null" []
type_error (boolean b) = errorf "json: cannot unmarshal bool" []
type_error (number n) = errorf "json: cannot unmarshal number %s" (n ∷ [])
type_error (string s) = errorf "json: cannot unmarshal string" []
type_error (array l) = errorf "json: cannot unmarshal array" []
type_error (object l) = errorf "json: cannot unmarshal object" []

abbrev if_ok {ℓ} : {A : Type ℓ} → Result A → Option A
if_ok (err e) = none
if_ok (ok a) = some a

-- The Go values that a JSON value can be stored in.
abbrev pub read_text : Json → Option Text
read_text (string s) = some s
read_text _ = none

abbrev pub read_bool : Json → Option Bool
read_bool (boolean b) = some b
read_bool _ = none

abbrev pub read_uint : ℕ → Json → Option ℕ
read_uint bits (number t) = if_ok (parse_uint bits t)
read_uint bits _ = none

abbrev pub read_int : ℕ → Json → Option ℤ
read_int bits (number t) = if_ok (parse_int bits t)
read_int bits _ = none

-- A field of a struct: its name, and what a value does to the struct, if it is of a good type.
pub record Field (S : Type 0) : Type 0 where
  pub name : Text
  pub store : Json → S → Option S

abbrev put : {S A : Type 0} → (S → A → S) → S → Option A → Option S
put set s none = none
put set s (some a) = some (set s a)

-- A field that is no pointer: null leaves it as it is.
abbrev pub plain : {S A : Type 0} → String → (Json → Option A) → (S → A → S) → Field S
plain name read set = record {
  name = codes name;
  store = λ v s. elim v [ null ↦ some s | w ↦ put set s (read w) ];
}

abbrev or_else : Option Error → Error → Error
or_else none e = e
or_else (some saved) e = saved

module _ {S : Type 0} where
  unfoldable pub find_by : (Text → Bool) → List (Field S) → Option (Field S)
  find_by test [] = none
  find_by test (f ∷ fs) = if test f.name then some f else find_by test fs

  -- The field for a key: its own name goes before the names that are folded.
  unfoldable pub find_field : List (Field S) → Text → Option (Field S)
  unfolding find_by text_eq fold_name
  find_field fs key = elim (find_by (text_eq key) fs) [
    | some f ↦ some f
    | none ↦ find_by (λ name. text_eq (fold_name key) (fold_name name)) fs
  ]

  -- What a member does to the struct. A key with no field is skipped.
  unfoldable pub store_member : List (Field S) → Member → S → Option S
  unfolding find_field
  store_member fs (key, value) s = elim (find_field fs key) [
    | none ↦ some s
    | some f ↦ f.store value s
  ]

  abbrev finish : S → Option Error → Result S
  finish s none = ok s
  finish s (some e) = err e

  -- A value of a bad type is skipped, and the first such error is returned at the end.
  unfoldable pub store_members : List (Field S) → List Member → S → Option Error → Result S
  unfolding store_member
  store_members fs [] s saved = finish s saved
  store_members fs (m ∷ ms) s saved = elim (store_member fs m s) [
    | some t ↦ store_members fs ms t saved
    | none ↦ store_members fs ms s (some (or_else saved (type_error m.1)))
  ]

  -- `json.Unmarshal(value, &s)`
  unfoldable pub unmarshal : List (Field S) → Json → S → Result S
  unfolding store_members members
  unmarshal fs null s = ok s
  unmarshal fs (object l) s = store_members fs (members l) s none
  unmarshal fs value s = err (type_error value)
