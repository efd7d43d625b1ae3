-- ===== src/Tests/Cmdline.antt =====
-- The flag with a list of strings.
use vfkit.Base.{
  ◌%◌, true, false, List, [], ◌∷◌, ◌≡◌, refl, arith, ◌⊎◌, ok, err, errorf, ◌>>=◌, inr, for_each,
}
use mathlib.Core.List.{map}
use vfkit.Text.{Text, codes, comma, join, quote, trim_quotes}
use vfkit.Text.Utf8.{ascii-IsUtf8}
use vfkit.Cmdline.{StringSliceValue, set_value, parse_string}
use vfkit.Cmdline.Fields.{
  IsField, done, plain, quoted, quotes, parse_string-join, parse_string-quotes,
}
use vfkit.Cmdline.Flags.{parse_each, set_value_each}

kernel_args :
    parse_string (codes "linux,cmdline=\"a=1,b\",\"q\"")
    ≡ ok (codes "linux" ∷ codes "cmdline=\"a=1,b\"" ∷ codes "q" ∷ [])
unfolding parse_string codes trim_quotes
kernel_args = refl

no_field : parse_string [] ≡ ok []
unfolding parse_string trim_quotes
no_field = refl

-- A comma between quotes does not split.
abbrev quoted_field : Text
quoted_field = quote ∷ b'a' ∷ comma ∷ quote ∷ []

quoted_field-IsField : IsField quoted_field
quoted_field-IsField = quoted (b'a' ∷ comma ∷ []) [] (omega arith) done refl

parse_string-join_example :
    parse_string (join (comma ∷ []) (quoted_field ∷ (b'b' ∷ []) ∷ []))
    ≡ ok (map trim_quotes (quoted_field ∷ (b'b' ∷ []) ∷ []))
parse_string-join_example =
    parse_string-join quoted_field ((b'b' ∷ []) ∷ [])
      (quoted_field-IsField, (plain (omega arith) (omega arith) done, tt))
      (ascii-IsUtf8 quoted_field (omega arith), (ascii-IsUtf8 (b'b' ∷ []) (omega arith), tt))
      (inr cc)

-- An invalid byte is read as the replacement character.
replaced : parse_string (0xff ∷ []) ≡ ok ((0xef ∷ 0xbf ∷ 0xbd ∷ []) ∷ [])
unfolding parse_string trim_quotes
replaced = refl

parse_string-quotes_example :
    ((quotes (quote ∷ []) % 2 ≡ 0) × (v : List Text) × (parse_string (quote ∷ []) ≡ ok v))
    ⊎ ((quotes (quote ∷ []) % 2 ≡ 1)
        × (parse_string (quote ∷ []) ≡ err (errorf "mismatched \"" [])))
parse_string-quotes_example = parse_string-quotes (quote ∷ [])

abbrev default_value : StringSliceValue
default_value = record { value = codes "default" ∷ []; changed = false }

set_value_each_example : for_each set_value default_value (codes "a,b" ∷ codes "c" ∷ []) ≡ (
    parse_each (codes "a,b" ∷ codes "c" ∷ []) >>= λ all.
    ok (record { value = all; changed = true }))
set_value_each_example = set_value_each default_value (codes "a,b") (codes "c" ∷ []) refl
