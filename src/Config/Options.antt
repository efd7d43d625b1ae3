-- ===== src/Config/Options.antt =====
-- `option`, `strToOption` and `strvToOptions` of pkg/config/virtio.go.
pub mod Laws
use vfkit.Base.{List, [], ◌∷◌, ◌++◌}
use vfkit.Text.{Text, codes, equals_sign, is_empty, split_two, join}

pub record CmdOption : Type 0 where
  pub key : Text
  pub value : Text

abbrev of_parts : List Text → CmdOption
of_parts [] = record { key = []; value = [] }
of_parts (k ∷ []) = record { key = k; value = [] }
of_parts (k ∷ v ∷ _) = record { key = k; value = v }

unfoldable pub str_to_option : Text → CmdOption
unfolding split_two
str_to_option str = of_parts (split_two equals_sign str)

unfoldable pub strv_to_options : List Text → List CmdOption
unfolding str_to_option
strv_to_options [] = []
strv_to_options ([] ∷ opts) = strv_to_options opts
strv_to_options ((c ∷ s) ∷ opts) = str_to_option (c ∷ s) ∷ strv_to_options opts

-- `%s` of a list of options, as it stands in an error.
abbrev show_option : CmdOption → Text
show_option o = codes "{" ++ (o.key ++ (codes " " ++ (o.value ++ codes "}")))

abbrev show_each : List CmdOption → List Text
show_each [] = []
show_each (o ∷ os) = show_option o ∷ show_each os

abbrev pub show_options : List CmdOption → Text
show_options os = codes "[" ++ (join (codes " ") (show_each os) ++ codes "]")
