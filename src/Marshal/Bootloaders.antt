-- ===== src/Marshal/Bootloaders.antt =====
-- `MarshalJSON` of the bootloaders and of an ignition, `unmarshalBootloader` and
-- `unmarshalIgnition` of pkg/config/json.go.
use vfkit.Base.{false, [], ◌∷◌, if◌then◌else◌, Result, ok, err, ◌>>=◌}
use vfkit.Text.{Text, is}
use vfkit.Config.Bootloader.{
  Bootloader, LinuxBootloader, EfiBootloader, MacOsBootloader, linux, efi, macos,
}
use vfkit.Config.TimeSync.{Ignition}
use vfkit.Json.{Json, boolean, object, to_fields}
use vfkit.Json.Members.{member, text, text_unless_empty}
use vfkit.Json.Struct.{unmarshal}
use vfkit.Marshal.Devices.{with_kind}
use vfkit.Marshal.Fields.{kind_fields, linux_fields, efi_fields, ignition_fields}
use vfkit.Marshal.ReadDevices.{unknown_kind}

unfoldable pub marshal_linux : LinuxBootloader → Json
unfolding with_kind
marshal_linux b = with_kind "linuxBootloader" (
    member "vmlinuzPath" (text b.vmlinuz_path)
    ∷ member "kernelCmdLine" (text b.kernel_cmd_line)
    ∷ member "initrdPath" (text b.initrd_path)
    ∷ [])

unfoldable pub marshal_efi : EfiBootloader → Json
unfolding with_kind
marshal_efi b = with_kind "efiBootloader" (
    member "efiVariableStorePath" (text b.efi_variable_store_path)
    ∷ member "createVariableStore" (boolean b.create_variable_store)
    ∷ [])

-- The macOS bootloader has no `MarshalJSON`, so its fields are written with no kind.
unfoldable pub marshal_macos : MacOsBootloader → Json
unfolding to_fields
marshal_macos b = object (
    to_fields (
      member "machineIdentifierPath" (text b.machine_identifier_path)
      ∷ member "hardwareModelPath" (text b.hardware_model_path)
      ∷ member "auxImagePath" (text b.aux_image_path)
      ∷ []))

unfoldable pub marshal_bootloader : Bootloader → Json
unfolding marshal_linux marshal_efi marshal_macos
marshal_bootloader (linux b) = marshal_linux b
marshal_bootloader (efi b) = marshal_efi b
marshal_bootloader (macos b) = marshal_macos b

abbrev pub bootloader_as : Text → Json → Result Bootloader
bootloader_as kind raw =
    if is kind "efiBootloader"
    then (do
      b ←
          unmarshal efi_fields raw
            (record { efi_variable_store_path = []; create_variable_store = false })
      ok (efi b))
    else if is kind "linuxBootloader"
    then (do
      b ←
          unmarshal linux_fields raw
            (record { vmlinuz_path = []; kernel_cmd_line = []; initrd_path = [] })
      ok (linux b))
    else err (unknown_kind kind)

unfoldable pub unmarshal_bootloader : Json → Result Bootloader
unfolding is unmarshal
unmarshal_bootloader raw = do kind ← unmarshal kind_fields raw []; bootloader_as kind raw

unfoldable pub marshal_ignition : Ignition → Json
unfolding with_kind
marshal_ignition i =
    with_kind "ignition"
      (member "configPath" (text i.config_path) ∷ text_unless_empty "socketPath" i.socket_path)

unfoldable pub unmarshal_ignition : Json → Result Ignition
unfolding unmarshal
unmarshal_ignition raw =
    unmarshal ignition_fields raw (record { config_path = []; socket_path = []; vsock_port = 0 })
