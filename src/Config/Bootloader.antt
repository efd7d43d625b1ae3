-- ===== src/Config/Bootloader.antt =====
-- pkg/config/bootloader.go: the three bootloaders and `BootloaderFromCmdLine`.
pub mod RoundTrip
use vfkit.Base.{
  Bool, true, false, not, Option, some, none, List, [], ◌∷◌, ◌++◌, if◌then◌else◌, errorf, Result,
  ok, err, ◌>>=◌, ◌>>◌, fail_if, for_each,
}
use vfkit.Text.{Text, codes, is, is_empty, trim_quotes}
use vfkit.Config.Options.{CmdOption, strv_to_options}

pub record LinuxBootloader : Type 0 where
  pub vmlinuz_path : Text
  pub kernel_cmd_line : Text
  pub initrd_path : Text

pub record EfiBootloader : Type 0 where
  pub efi_variable_store_path : Text
  pub create_variable_store : Bool

pub record MacOsBootloader : Type 0 where
  pub machine_identifier_path : Text
  pub hardware_model_path : Text
  pub aux_image_path : Text

-- `NewLinuxBootloader`
abbrev pub new_linux_bootloader : Text → Text → Text → LinuxBootloader
new_linux_bootloader vmlinuz cmd_line initrd = record {
  vmlinuz_path = vmlinuz;
  kernel_cmd_line = cmd_line;
  initrd_path = initrd;
}

-- `NewEFIBootloader`
abbrev pub new_efi_bootloader : Text → Bool → EfiBootloader
new_efi_bootloader path create = record {
  efi_variable_store_path = path;
  create_variable_store = create;
}

unfoldable pub linux_set_option : LinuxBootloader → CmdOption → Result LinuxBootloader
unfolding is
linux_set_option b option =
    if is option.key "kernel"
    then ok (record b { vmlinuz_path = option.value })
    else if is option.key "cmdline"
    then ok (record b { kernel_cmd_line = trim_quotes option.value })
    else if is option.key "initrd"
    then ok (record b { initrd_path = option.value })
    else err (errorf "unknown option for Linux bootloaders: %s" (option.key ∷ []))

unfoldable pub linux_from_options : LinuxBootloader → List CmdOption → Result LinuxBootloader
unfolding for_each linux_set_option
linux_from_options b options = for_each linux_set_option b options

unfoldable pub linux_to_cmd_line : LinuxBootloader → Result (List Text)
linux_to_cmd_line b = do
  fail_if (is_empty b.vmlinuz_path) (errorf "missing kernel path" [])
  fail_if (is_empty b.initrd_path) (errorf "missing initrd path" [])
  fail_if (is_empty b.kernel_cmd_line) (errorf "missing kernel command line" [])
  ok (
      codes "--kernel"
      ∷ b.vmlinuz_path
      ∷ codes "--initrd"
      ∷ b.initrd_path
      ∷ codes "--kernel-cmdline"
      ∷ b.kernel_cmd_line
      ∷ [])

unfoldable pub efi_set_option : EfiBootloader → CmdOption → Result EfiBootloader
unfolding is
efi_set_option b option =
    if is option.key "variable-store"
    then ok (record b { efi_variable_store_path = option.value })
    else if is option.key "create"
    then (if not (is_empty option.value)
        then err
            (errorf "unexpected value for EFI bootloader 'create' option: %s" (option.value ∷ []))
        else ok (record b { create_variable_store = true }))
    else err (errorf "unknown option for EFI bootloaders: %s" (option.key ∷ []))

unfoldable pub efi_from_options : EfiBootloader → List CmdOption → Result EfiBootloader
unfolding for_each efi_set_option
efi_from_options b options = for_each efi_set_option b options

unfoldable pub efi_to_cmd_line : EfiBootloader → Result (List Text)
efi_to_cmd_line b =
    if is_empty b.efi_variable_store_path
    then err (errorf "missing EFI store path" [])
    else ok (
        codes "--bootloader"
        ∷ (codes "efi,variable-store="
            ++ (b.efi_variable_store_path
                ++ (if b.create_variable_store then codes ",create" else [])))
        ∷ [])

unfoldable pub macos_set_option : MacOsBootloader → CmdOption → Result MacOsBootloader
unfolding is
macos_set_option b option =
    if is option.key "machineIdentifierPath"
    then ok (record b { machine_identifier_path = option.value })
    else if is option.key "hardwareModelPath"
    then ok (record b { hardware_model_path = option.value })
    else if is option.key "auxImagePath"
    then ok (record b { aux_image_path = option.value })
    else err (errorf "unknown option for macOS bootloaders: %s" (option.key ∷ []))

unfoldable pub macos_from_options : MacOsBootloader → List CmdOption → Result MacOsBootloader
unfolding for_each macos_set_option
macos_from_options b options = for_each macos_set_option b options

-- The `Bootloader` interface
pub data Bootloader : Type 0 where
  linux : LinuxBootloader → Bootloader
  efi : EfiBootloader → Bootloader
  macos : MacOsBootloader → Bootloader

unfoldable pub to_cmd_line : Bootloader → Result (List Text)
to_cmd_line (linux b) = linux_to_cmd_line b
to_cmd_line (efi b) = efi_to_cmd_line b
to_cmd_line (macos b) = ok []

unfoldable pub from_options : Bootloader → List CmdOption → Result Bootloader
from_options (linux b) os = do r ← linux_from_options b os; ok (linux r)
from_options (efi b) os = do r ← efi_from_options b os; ok (efi r)
from_options (macos b) os = do r ← macos_from_options b os; ok (macos r)

unfoldable pub new_bootloader : Text → Option Bootloader
unfolding is
new_bootloader name =
    if is name "efi"
    then some (efi (record { efi_variable_store_path = []; create_variable_store = false }))
    else if is name "linux"
    then some (linux (record { vmlinuz_path = []; kernel_cmd_line = []; initrd_path = [] }))
    else if is name "macos"
    then some (
        macos
          (record { machine_identifier_path = []; hardware_model_path = []; aux_image_path = [] }))
    else none

abbrev configure : Text → Option Bootloader → List Text → Result Bootloader
configure name none opts = err (errorf "unknown bootloader type: %s" (name ∷ []))
configure name (some b) opts = from_options b (strv_to_options opts)

unfoldable pub bootloader_from_cmd_line : List Text → Result Bootloader
unfolding from_options new_bootloader
bootloader_from_cmd_line [] =
    err (errorf "empty option list in --bootloader command line argument" [])
bootloader_from_cmd_line (name ∷ opts) = configure name (new_bootloader name) opts
