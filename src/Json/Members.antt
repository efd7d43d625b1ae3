-- ===== src/Json/Members.antt =====
-- The members that `json.Marshal` writes for the fields of a struct.
use vfkit.Base.{ℕ, String, Bool, true, false, not, List, [], ◌∷◌}
use vfkit.Base.Int.{ℤ}
use vfkit.Text.{Text, codes, is_empty}
use vfkit.Decimal.{format, format_int}
use vfkit.Json.{Json, boolean, number, string, Member}
use vfkit.Text.Utf8.{to_valid_utf8}

abbrev pub member : String → Json → Member
member name value = (codes name, value)

abbrev pub text : Text → Json
text s = string (to_valid_utf8 s)

abbrev pub unsigned : ℕ → Json
unsigned n = number (format n)

abbrev pub signed : ℤ → Json
signed n = number (format_int n)

-- A field with `omitempty`
unfoldable pub unless : Bool → Member → List Member
unless true m = []
unless false m = m ∷ []

abbrev pub text_unless_empty : String → Text → List Member
text_unless_empty name s = unless (is_empty s) (member name (text s))

abbrev pub flag_if_set : String → Bool → List Member
flag_if_set name b = unless (not b) (member name (boolean b))
