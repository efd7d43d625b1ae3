-- ===== src/Config/Device/Input.antt =====
-- `VirtioInput` of pkg/config/virtio.go.
use vfkit.Base.{
  Bool, not, ◌&&◌, ◌||◌, List, [], ◌∷◌, ◌++◌, if◌then◌else◌, errorf, Result, ok, err, ◌>>=◌, ◌>>◌,
  for_each,
}
use vfkit.Text.{Text, codes, is, is_empty}
use vfkit.Config.Options.{CmdOption}

pub record VirtioInput : Type 0 where
  pub input_type : Text

-- `VirtioInputPointingDevice` or `VirtioInputKeyboardDevice`
unfoldable pub is_input_type : Text → Bool
unfolding is
is_input_type t = is t "pointing" || is t "keyboard"

unfoldable pub validate : VirtioInput → Result (Unit {0})
unfolding is
validate dev =
    if not (is dev.input_type "pointing") && not (is dev.input_type "keyboard")
    then err (errorf "unknown option for virtio-input devices: %s" (dev.input_type ∷ []))
    else ok tt

-- `VirtioInputNew`
unfoldable pub input_new : Text → Result VirtioInput
unfolding validate
input_new input_type = do
  let dev : VirtioInput = record { input_type = input_type }
  validate dev
  ok dev

unfoldable pub to_cmd_line : VirtioInput → Result (List Text)
unfolding validate
to_cmd_line dev = do
  validate dev
  ok (codes "--device" ∷ (codes "virtio-input," ++ dev.input_type) ∷ [])

unfoldable pub set_option : VirtioInput → CmdOption → Result VirtioInput
unfolding is_input_type
set_option dev option =
    if is_input_type option.key
    then (if not (is_empty option.value)
        then err (
            errorf "unexpected value for virtio-input %s option: %s"
              (option.key ∷ option.value ∷ []))
        else ok (record dev { input_type = option.key }))
    else err (errorf "unknown option for virtio-input devices: %s" (option.key ∷ []))

unfoldable pub from_options : VirtioInput → List CmdOption → Result VirtioInput
unfolding for_each set_option validate
from_options dev options = do dev' ← for_each set_option dev options; validate dev'; ok dev'
