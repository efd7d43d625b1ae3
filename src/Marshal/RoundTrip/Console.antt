-- ===== src/Marshal/RoundTrip/Console.antt =====
-- `VirtioSerial`, `VirtioInput` and `VirtioGPU`.
use vfkit.Base.{◌≡◌, refl, ap, ◌∙◌, [], ◌∷◌, ◌++◌, ok, none, ◌>>=◌, not, List}
use vfkit.Text.{codes, is_empty}
use vfkit.Config.Device.{virtio_serial, virtio_input, virtio_gpu}
use vfkit.Config.Device.Serial.{VirtioSerial}
use vfkit.Config.Device.Serial
use vfkit.Config.Device.Input.{VirtioInput}
use vfkit.Config.Device.Gpu.{VirtioGpu}
use vfkit.Config.Device.Gpu
use vfkit.Json.{Member, boolean}
use vfkit.Text.Utf8.{IsUtf8, to_valid_utf8}
use vfkit.Json.Members.{member, text, signed, text_unless_empty, flag_if_set}
use vfkit.Json.Struct.{find_field, store_member, store_members}
use vfkit.Json.ReadBack.{
  read-member, read-text_unless_empty, read-flag_if_set, read-last, last-IsForeign,
  unless-IsForeign, IsForeign, IsInt64, read_int-format_int,
}
use vfkit.Marshal.Devices.{marshal_serial, marshal_input, marshal_gpu, marshal_device}
use vfkit.Marshal.Fields.{kind_fields, serial_fields, input_fields, gpu_fields}
use vfkit.Marshal.ReadDevices.{unmarshal_as}
use vfkit.Marshal.RoundTrip.Kind.{unmarshal-with_kind, unmarshal_device-with_kind, ReadsBack}

pub record IsSerial (d : VirtioSerial) : Type 0 where
  pub log_text : IsUtf8 d.log_file
  pub name_text : IsUtf8 d.pty_name

pub record IsInput (d : VirtioInput) : Type 0 where
  pub type_text : IsUtf8 d.input_type

-- The dimensions are any `int`.
pub record IsGpu (d : VirtioGpu) : Type 0 where
  pub width_range : IsInt64 d.width
  pub height_range : IsInt64 d.height

abbrev serial_members : VirtioSerial → List Member
serial_members d =
    text_unless_empty "logFile" d.log_file
    ++ (flag_if_set "usesStdio" d.uses_stdio
        ++ (flag_if_set "usesPty" d.uses_pty ++ text_unless_empty "ptyName" d.pty_name))

read-serial_members :
    (d : VirtioSerial)
    → IsSerial d
    → store_members serial_fields (serial_members d) Serial.empty none ≡ ok d
unfolding store_member codes
read-serial_members d h =
    let logged = record Serial.empty { log_file = d.log_file } in
    let on_stdio = record logged { uses_stdio = d.uses_stdio } in
    let on_pty = record on_stdio { uses_pty = d.uses_pty } in
    read-text_unless_empty serial_fields "logFile" _ (λ w. record Serial.empty { log_file = w })
      d.log_file h.log_text (λ w. refl)
    ∙ (read-flag_if_set serial_fields "usesStdio" _ (λ b. record logged { uses_stdio = b })
          d.uses_stdio refl
        ∙ (read-flag_if_set serial_fields "usesPty" _ (λ b. record on_stdio { uses_pty = b })
              d.uses_pty refl
            ∙ read-last serial_fields (text_unless_empty "ptyName" d.pty_name) on_pty d (
                read-text_unless_empty serial_fields "ptyName" []
                  (λ w. record on_pty { pty_name = w }) d.pty_name h.name_text (λ w. refl))))

serial_members-IsForeign : (d : VirtioSerial) → IsForeign kind_fields (serial_members d)
unfolding codes find_field
serial_members-IsForeign d = unless-IsForeign kind_fields (is_empty d.log_file) _ _ refl (
    unless-IsForeign kind_fields (not d.uses_stdio) _ _ refl (
      unless-IsForeign kind_fields (not d.uses_pty) _ _ refl
        (last-IsForeign kind_fields (is_empty d.pty_name) _ refl)))

pub serial-ReadsBack :
    (d : VirtioSerial) → IsSerial d → ReadsBack (virtio_serial d) (virtio_serial d)
unfolding marshal_device marshal_serial to_valid_utf8 codes
serial-ReadsBack d h =
    unmarshal_device-with_kind "virtioserial" (serial_members d) refl (serial_members-IsForeign d)
    ∙ unfold unmarshal_as in
      ap (λ r. r >>= λ d. ok (virtio_serial d))
        (unmarshal-with_kind serial_fields "virtioserial" (serial_members d) Serial.empty d
          (unfold store_member in refl) (read-serial_members d h))

pub input-ReadsBack : (d : VirtioInput) → IsInput d → ReadsBack (virtio_input d) (virtio_input d)
unfolding marshal_device marshal_input to_valid_utf8 codes
input-ReadsBack d h =
    let ms = member "inputType" (text d.input_type) ∷ [] in
    unmarshal_device-with_kind "virtioinput" ms refl (unfold find_field in (refl, tt))
    ∙ unfold unmarshal_as in
      ap (λ r. r >>= λ d. ok (virtio_input d))
        (unmarshal-with_kind input_fields "virtioinput" ms (record { input_type = [] }) d
          (unfold store_member in refl) (unfold store_members in rw h.type_text))

abbrev gpu_members : VirtioGpu → List Member
gpu_members d =
    member "usesGUI" (boolean d.uses_gui)
    ∷ member "width" (signed d.width)
    ∷ member "height" (signed d.height)
    ∷ []

read-gpu_members :
    (d : VirtioGpu) → IsGpu d → store_members gpu_fields (gpu_members d) Gpu.empty none ≡ ok d
unfolding store_member codes
read-gpu_members d h =
    let shown = record Gpu.empty { uses_gui = d.uses_gui } in
    let wide = record shown { width = d.width } in
    read-member gpu_fields (member "usesGUI" (boolean d.uses_gui)) _ Gpu.empty shown refl
    ∙ (read-member gpu_fields (member "width" (signed d.width)) _ shown wide
          (rw (read_int-format_int d.width h.width_range))
        ∙ (read-member gpu_fields (member "height" (signed d.height)) [] wide d
              (rw (read_int-format_int d.height h.height_range))
            ∙ unfold store_members in refl))

pub gpu-ReadsBack : (d : VirtioGpu) → IsGpu d → ReadsBack (virtio_gpu d) (virtio_gpu d)
unfolding marshal_device marshal_gpu to_valid_utf8 codes
gpu-ReadsBack d h =
    unmarshal_device-with_kind "virtiogpu" (gpu_members d) refl
      (unfold find_field in (refl, (refl, (refl, tt))))
    ∙ unfold unmarshal_as in
      ap (λ r. r >>= λ d. ok (virtio_gpu d))
        (unmarshal-with_kind gpu_fields "virtiogpu" (gpu_members d) Gpu.empty d
          (unfold store_member in refl) (read-gpu_members d h))
