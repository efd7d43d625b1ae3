-- ===== src/Config/Device/Gpu.antt =====
-- `VirtioGPU` of pkg/config/virtio.go. A dimension is a Go `int`.
use vfkit.Base.{
  Bool, false, ◌&&◌, ◌||◌, List, [], ◌∷◌, ◌++◌, if◌then◌else◌, errorf, Error, Result, ok, err,
  ◌>>=◌, ◌>>◌, for_each,
}
use vfkit.Base.Int.{ℤ, pos, ltb_pos, is_zero}
use vfkit.Text.{Text, codes, is}
use vfkit.Decimal.{format_int, atoi}
use vfkit.Config.Options.{CmdOption}

pub record VirtioGpu : Type 0 where
  pub uses_gui : Bool
  pub width : ℤ
  pub height : ℤ

abbrev pub default_width : ℤ
default_width = pos 800

abbrev pub default_height : ℤ
default_height = pos 600

abbrev pub empty : VirtioGpu
empty = record { uses_gui = false; width = pos 0; height = pos 0 }

-- `VirtioGPUNew`
abbrev pub gpu_new : VirtioGpu
gpu_new = record { uses_gui = false; width = default_width; height = default_height }

unfoldable pub validate : VirtioGpu → Result (Unit {0})
validate dev =
    if ltb_pos dev.height 1 || ltb_pos dev.width 1
    then err (
        errorf "invalid dimensions for virtio-gpu device resolution: %dx%d"
          (format_int dev.width ∷ format_int dev.height ∷ []))
    else ok tt

unfoldable pub to_cmd_line : VirtioGpu → Result (List Text)
unfolding validate
to_cmd_line dev = do
  validate dev
  ok (
      codes "--device"
      ∷ (codes "virtio-gpu,width="
          ++ (format_int dev.width ++ (codes ",height=" ++ format_int dev.height)))
      ∷ [])

abbrev invalid_value : CmdOption → Error
invalid_value o = errorf "invalid value for virtio-gpu %s: %s" (o.key ∷ o.value ∷ [])

-- `strconv.Atoi`, and the test behind it: both failures give the same error.
unfoldable pub dimension : CmdOption → Result ℤ → Result ℤ
dimension o (err _) = err (invalid_value o)
dimension o (ok n) = if ltb_pos n 1 then err (invalid_value o) else ok n

unfoldable pub set_option : VirtioGpu → CmdOption → Result VirtioGpu
unfolding is dimension
set_option dev option =
    if is option.key "height"
    then (do n ← dimension option (atoi option.value); ok (record dev { height = n }))
    else if is option.key "width"
    then (do n ← dimension option (atoi option.value); ok (record dev { width = n }))
    else err (errorf "unknown option for virtio-gpu devices: %s" (option.key ∷ []))

-- The default resolution, where no dimension was given.
unfoldable pub with_default : VirtioGpu → VirtioGpu
with_default dev =
    if is_zero dev.width && is_zero dev.height
    then record dev { width = default_width; height = default_height }
    else dev

unfoldable pub from_options : VirtioGpu → List CmdOption → Result VirtioGpu
unfolding for_each set_option with_default validate
from_options dev options = do
  dev' ← for_each set_option dev options
  validate (with_default dev')
  ok (with_default dev')
