-- ===== src/Cmdline.antt =====
-- pkg/cmdline/string_slice.go: `strvBuilder`, `parseString` and `stringSliceValue`. The loop over
-- the runes of a text is one over the bytes that `WriteRune` writes of them, among which an invalid
-- byte has become the replacement character; the runes that it tests for are ASCII, so they are
-- single bytes and no part of another rune. The builder's `err` has no field:
-- `strings.Builder.WriteRune` returns no error.
pub mod Fields
pub mod Flags
use vfkit.Base.{
  Bool, true, false, not, ◌||◌, List, [], ◌∷◌, ◌++◌, ◌==◌, if◌then◌else◌, errorf, Result, ok, err,
  ◌>>=◌,
}
use vfkit.Text.{Text, codes, comma, quote, is_empty, join, trim_quotes}
use vfkit.Text.Utf8.{to_valid_utf8}

-- `strBuilder` and `strv`
pub record StrvBuilder : Type 0 where
  pub str : Text
  pub strv : List Text

abbrev pub new_builder : StrvBuilder
new_builder = record { str = []; strv = [] }

-- A rune, or a part of it, by its bytes
abbrev pub write_rune : StrvBuilder → Text → StrvBuilder
write_rune b r = record b { str = b.str ++ r }

abbrev pub next : StrvBuilder → StrvBuilder
next b = record { str = []; strv = b.strv ++ trim_quotes b.str ∷ [] }

abbrev pub is_nil {ℓ} : {A : Type ℓ} → List A → Bool
is_nil [] = true
is_nil (_ ∷ _) = false

-- `End`
unfoldable pub finish : StrvBuilder → List Text
finish b =
    if not (is_nil b.strv) || not (is_empty (trim_quotes b.str))
    then b.strv ++ trim_quotes b.str ∷ []
    else b.strv

-- The loop of `parseString` over the runes as UTF-8; the flag is `withinQuotes`.
unfoldable pub parse_loop : Bool → StrvBuilder → Text → Result (List Text)
parse_loop true b [] = err (errorf "mismatched \"" [])
parse_loop false b [] = ok (finish b)
parse_loop true b (c ∷ s) = parse_loop (not (c == quote)) (write_rune b (c ∷ [])) s
parse_loop false b (c ∷ s) = elim (c == comma) [
  | true ↦ parse_loop false (next b) s
  | false ↦ parse_loop (c == quote) (write_rune b (c ∷ [])) s
]

unfoldable pub parse_string : Text → Result (List Text)
unfolding parse_loop finish to_valid_utf8
parse_string str = parse_loop false new_builder (to_valid_utf8 str)

pub record StringSliceValue : Type 0 where
  pub value : List Text
  pub changed : Bool

-- `Set`
unfoldable pub set_value : StringSliceValue → Text → Result StringSliceValue
unfolding parse_string
set_value s val = do
  v ← parse_string val
  ok (record { value = if not s.changed then v else s.value ++ v; changed = true })

unfoldable pub string : StringSliceValue → Text
string s = codes "[" ++ (join (comma ∷ []) s.value ++ codes "]")

abbrev pub append : StringSliceValue → Text → StringSliceValue
append s val = record s { value = s.value ++ val ∷ [] }

abbrev pub replace : StringSliceValue → List Text → StringSliceValue
replace s val = record s { value = val }

abbrev pub get_slice : StringSliceValue → List Text
get_slice s = s.value
