-- ===== src/Marshal/RoundTrip/Bootloaders.antt =====
-- Bootloaders, time synchronisation and ignition.
use vfkit.Base.{◌<◌, ◌^◌, ◌≡◌, refl, ap, ◌∙◌, [], ◌∷◌, ok, err, ◌>>=◌, Result, false}
use vfkit.Text.{codes, is}
use vfkit.Config.Bootloader.{Bootloader, linux, efi, macos}
use vfkit.Config.TimeSync.{TimeSync, Ignition}
use vfkit.Json.{boolean}
use vfkit.Text.Utf8.{IsUtf8, to_valid_utf8}
use vfkit.Json.Members.{member, text, unsigned, text_unless_empty}
use vfkit.Json.Struct.{find_field, store_member, store_members, unmarshal}
use vfkit.Json.ReadBack.{
  read-member, read-text, read-text_unless_empty, read-last, read_uint-format, unmarshal-object,
}
use vfkit.Marshal.Fields.{linux_fields, efi_fields, timesync_fields, ignition_fields}
use vfkit.Marshal.ReadDevices.{unknown_kind}
use vfkit.Marshal.Bootloaders.{
  marshal_bootloader, unmarshal_bootloader, marshal_ignition, unmarshal_ignition, marshal_efi,
  marshal_linux, marshal_macos,
}
use vfkit.Marshal.Machine.{marshal_timesync}
use vfkit.Marshal.RoundTrip.Kind.{unmarshal-with_kind, unmarshal_bootloader-with_kind}

-- Every text is valid UTF-8.
abbrev pub IsWritableBootloader : Bootloader → Type 0
IsWritableBootloader (linux b) =
    IsUtf8 b.vmlinuz_path × (IsUtf8 b.kernel_cmd_line × IsUtf8 b.initrd_path)
IsWritableBootloader (efi b) = IsUtf8 b.efi_variable_store_path
IsWritableBootloader (macos b) = Unit

-- What JSON makes of a bootloader.
abbrev pub json_bootloader : Bootloader → Result Bootloader
json_bootloader (macos b) = err (unknown_kind [])
json_bootloader b = ok b

-- A Linux or an EFI bootloader whose texts are valid UTF-8 is read back as it was written; what is
-- written for a macOS bootloader has no kind and is refused.
pub bootloader-ReadsBack :
    (b : Bootloader)
    → IsWritableBootloader b
    → unmarshal_bootloader (marshal_bootloader b) ≡ json_bootloader b
unfolding marshal_bootloader to_valid_utf8 codes is unmarshal
bootloader-ReadsBack (efi b) h =
    let ms =
      member "efiVariableStorePath" (text b.efi_variable_store_path)
      ∷ member "createVariableStore" (boolean b.create_variable_store)
      ∷ [] in
    unfold marshal_efi in
    unmarshal_bootloader-with_kind "efiBootloader" ms refl (unfold find_field in (refl, (refl, tt)))
    ∙ ap (λ r. r >>= λ b. ok (efi b))
        (unmarshal-with_kind efi_fields "efiBootloader" ms
          (record { efi_variable_store_path = []; create_variable_store = false }) b
          (unfold store_member in refl) (unfold store_members in rw h))
bootloader-ReadsBack (linux b) (kernel, (args, initrd)) =
    let ms =
      member "vmlinuzPath" (text b.vmlinuz_path)
      ∷ member "kernelCmdLine" (text b.kernel_cmd_line)
      ∷ member "initrdPath" (text b.initrd_path)
      ∷ [] in
    unfold marshal_linux in
    unmarshal_bootloader-with_kind "linuxBootloader" ms refl
      (unfold find_field in (refl, (refl, (refl, tt))))
    ∙ ap (λ r. r >>= λ b. ok (linux b))
        (unmarshal-with_kind linux_fields "linuxBootloader" ms
          (record { vmlinuz_path = []; kernel_cmd_line = []; initrd_path = [] }) b
          (unfold store_member in refl) (unfold store_members in rw (kernel, args, initrd)))
bootloader-ReadsBack (macos b) h = unfold marshal_macos unmarshal_bootloader in refl

pub timesync-read :
    (ts : TimeSync)
    → ts.vsock_port < 2 ^ 32
    → unmarshal timesync_fields (marshal_timesync ts) (record { vsock_port = 0 }) ≡ ok ts
unfolding store_member codes
timesync-read ts h =
    unmarshal-object timesync_fields (member "vsockPort" (unsigned ts.vsock_port) ∷ []) _
    ∙ (read-member timesync_fields (member "vsockPort" (unsigned ts.vsock_port)) []
          (record { vsock_port = 0 }) ts (rw (read_uint-format 32 ts.vsock_port h))
        ∙ unfold store_members in refl)

pub record IsIgnition (i : Ignition) : Type 0 where
  pub config_text : IsUtf8 i.config_path
  pub socket_text : IsUtf8 i.socket_path

-- The port is not written.
abbrev pub without_port : Ignition → Ignition
without_port i = record i { vsock_port = 0 }

pub ignition-read :
    (i : Ignition) → IsIgnition i → unmarshal_ignition (marshal_ignition i) ≡ ok (without_port i)
unfolding unmarshal_ignition marshal_ignition store_member codes
ignition-read i h =
    let start : Ignition = record { config_path = []; socket_path = []; vsock_port = 0 } in
    let known = record start { config_path = i.config_path } in
    let socket = text_unless_empty "socketPath" i.socket_path in
    unmarshal-with_kind ignition_fields "ignition"
      (member "configPath" (text i.config_path) ∷ socket) start (without_port i) refl
      (read-text ignition_fields "configPath" socket start (λ w. record start { config_path = w })
          i.config_path h.config_text (λ w. refl)
        ∙ read-last ignition_fields socket known (without_port i) (
            read-text_unless_empty ignition_fields "socketPath" []
              (λ w. record known { socket_path = w }) i.socket_path h.socket_text (λ w. refl)))
