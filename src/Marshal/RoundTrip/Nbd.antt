-- ===== src/Marshal/RoundTrip/Nbd.antt =====
-- `NetworkBlockDevice`.
use vfkit.Base.{◌≡◌, refl, ap, ◌∙◌, [], ◌∷◌, ◌++◌, ok, none, ◌>>=◌, Bool, not, false, List}
use vfkit.Text.{Text, codes, is_empty}
use vfkit.Config.Device.{nbd}
use vfkit.Config.Device.Nbd.{NetworkBlockDevice}
use vfkit.Json.{Member}
use vfkit.Text.Utf8.{IsUtf8, to_valid_utf8}
use vfkit.Json.Members.{member, text, signed, text_unless_empty, flag_if_set}
use vfkit.Json.Struct.{find_field, store_member, store_members}
use vfkit.Json.ReadBack.{
  read-member, read-text, read-text_unless_empty, read-flag_if_set, unless-IsForeign, IsForeign,
  IsInt64, read_int-format_int,
}
use vfkit.Marshal.Devices.{marshal_nbd, marshal_device}
use vfkit.Marshal.Fields.{kind_fields, nbd_fields}
use vfkit.Marshal.ReadDevices.{unmarshal_as, no_nbd}
use vfkit.Marshal.RoundTrip.Kind.{unmarshal-with_kind, unmarshal_device-with_kind, ReadsBack}

-- The timeout is any `int64`.
pub record IsNbd (d : NetworkBlockDevice) : Type 0 where
  pub name_text : IsUtf8 d.storage.dev_name
  pub uri_text : IsUtf8 d.storage.uri
  pub identifier_text : IsUtf8 d.device_identifier
  pub timeout_range : IsInt64 d.timeout
  pub mode_text : IsUtf8 d.synchronization_mode

abbrev nbd_members : NetworkBlockDevice → List Member
nbd_members d =
    member "devName" (text d.storage.dev_name) ∷ flag_if_set "readOnly" d.storage.read_only
    ++ (text_unless_empty "uri" d.storage.uri
        ++ member "DeviceIdentifier" (text d.device_identifier)
          ∷ member "Timeout" (signed d.timeout)
          ∷ member "SynchronizationMode" (text d.synchronization_mode)
          ∷ [])

abbrev at_storage : Text → Bool → Text → NetworkBlockDevice
at_storage name read_only uri = record no_nbd {
  storage = record { dev_name = name; read_only = read_only; uri = uri };
}

read-nbd_members :
    (d : NetworkBlockDevice) → IsNbd d → store_members nbd_fields (nbd_members d) no_nbd none ≡ ok d
unfolding store_member codes
read-nbd_members d h =
    let name = d.storage.dev_name in
    let start = at_storage name d.storage.read_only d.storage.uri in
    let known = record start { device_identifier = d.device_identifier } in
    let timed = record known { timeout = d.timeout } in
    read-text nbd_fields "devName" _ no_nbd (λ w. at_storage w false []) name h.name_text
      (λ w. refl)
    ∙ (read-flag_if_set nbd_fields "readOnly" _ (λ b. at_storage name b []) d.storage.read_only refl
        ∙ (read-text_unless_empty nbd_fields "uri" _ (at_storage name d.storage.read_only)
              d.storage.uri h.uri_text (λ w. refl)
            ∙ (read-text nbd_fields "DeviceIdentifier" _ start
                  (λ w. record start { device_identifier = w }) d.device_identifier
                  h.identifier_text (λ w. refl)
                ∙ (read-member nbd_fields (member "Timeout" (signed d.timeout)) _ known timed
                      (rw (read_int-format_int d.timeout h.timeout_range))
                    ∙ (read-text nbd_fields "SynchronizationMode" [] timed
                          (λ w. record timed { synchronization_mode = w }) d.synchronization_mode
                          h.mode_text (λ w. refl)
                        ∙ unfold store_members in refl)))))

nbd_members-IsForeign : (d : NetworkBlockDevice) → IsForeign kind_fields (nbd_members d)
unfolding codes find_field
nbd_members-IsForeign d = (
  refl,
  unless-IsForeign kind_fields (not d.storage.read_only) _ _ refl
      (unless-IsForeign kind_fields (is_empty d.storage.uri) _ _ refl (refl, (refl, (refl, tt)))),
)

pub nbd-ReadsBack : (d : NetworkBlockDevice) → IsNbd d → ReadsBack (nbd d) (nbd d)
unfolding marshal_device marshal_nbd to_valid_utf8
nbd-ReadsBack d h =
    unmarshal_device-with_kind "nbd" (nbd_members d) (unfold codes in refl)
      (nbd_members-IsForeign d)
    ∙ unfold unmarshal_as codes in
      ap (λ r. r >>= λ d. ok (nbd d))
        (unmarshal-with_kind nbd_fields "nbd" (nbd_members d) no_nbd d (unfold store_member in refl)
          (read-nbd_members d h))
