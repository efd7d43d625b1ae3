-- ===== src/Config/Options/Laws.antt =====
-- Options are read back from the parts that spell them.
use vfkit.Base.{List, [], ◌∷◌, ◌++◌, ◌≡◌, refl}
use vfkit.Text.{Text, equals_sign}
use vfkit.Text.Split.{Lacks, split_two-append, split_two-Lacks}
use vfkit.Config.Options.{CmdOption, str_to_option, strv_to_options}

-- The two spellings of an option: `key=value`, also with an empty value, and `key` alone.
abbrev pub spell : CmdOption → Text
spell o = o.key ++ equals_sign ∷ o.value

pub str_to_option-spell : (o : CmdOption) → Lacks equals_sign o.key → str_to_option (spell o) ≡ o
unfolding str_to_option
str_to_option-spell o h = rw (split_two-append equals_sign o.key o.value h)

pub str_to_option_bare :
    (k : Text) → Lacks equals_sign k → str_to_option k ≡ record { key = k; value = [] }
unfolding str_to_option
str_to_option_bare k h = rw (split_two-Lacks equals_sign k h)

-- Empty parts are dropped and the order of the others is kept.
pub strv_to_options-append :
    (xs ys : List Text) → strv_to_options (xs ++ ys) ≡ strv_to_options xs ++ strv_to_options ys
unfolding strv_to_options
strv_to_options-append [] ys = refl
strv_to_options-append ([] ∷ xs) ys = strv_to_options-append xs ys
strv_to_options-append ((c ∷ s) ∷ xs) ys = rw (strv_to_options-append xs ys)
