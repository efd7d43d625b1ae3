-- ===== src/Marshal/RoundTrip/Kind.antt =====
-- The kind of what is written, which the readers look at first.
use vfkit.Base.{String, ◌≡◌, ap, ◌∙◌, List, [], ◌∷◌, ok, some, none, ◌>>=◌}
use vfkit.Text.{codes}
use vfkit.Config.Device.{VirtioDevice}
use vfkit.Json.{Member}
use vfkit.Text.Utf8.{IsUtf8}
use vfkit.Json.Members.{member, text}
use vfkit.Json.Struct.{Field, store_member, store_members, unmarshal}
use vfkit.Json.ReadBack.{read-member, read-IsForeign, unmarshal-object, IsForeign}
use vfkit.Marshal.Devices.{with_kind, marshal_device}
use vfkit.Marshal.Fields.{kind_fields}
use vfkit.Marshal.ReadDevices.{unmarshal_device, unmarshal_as}
use vfkit.Marshal.Bootloaders.{unmarshal_bootloader, bootloader_as}

pub unmarshal-kind :
    (k : String) (ms : List Member)
    → IsUtf8 (codes k)
    → IsForeign kind_fields ms
    → unmarshal kind_fields (with_kind k ms) [] ≡ ok (codes k)
unfolding with_kind
unmarshal-kind k ms u h =
    unmarshal-object kind_fields (member "kind" (text (codes k)) ∷ ms) []
    ∙ (read-member kind_fields (member "kind" (text (codes k))) ms [] (codes k)
          (unfold store_member codes in ap some u)
        ∙ read-IsForeign kind_fields ms (codes k) h)

-- A struct that has no field for the kind
pub unmarshal-with_kind :
    {S : Type 0} (fs : List (Field S)) (k : String) (ms : List Member) (s t : S)
    → store_member fs (member "kind" (text (codes k))) s ≡ some s
    → store_members fs ms s none ≡ ok t
    → unmarshal fs (with_kind k ms) s ≡ ok t
unfolding with_kind
unmarshal-with_kind fs k ms s t e h =
    unmarshal-object fs (member "kind" (text (codes k)) ∷ ms) s
    ∙ (read-member fs (member "kind" (text (codes k))) ms s s e ∙ h)

pub unmarshal_device-with_kind :
    (k : String) (ms : List Member)
    → IsUtf8 (codes k)
    → IsForeign kind_fields ms
    → unmarshal_device (with_kind k ms) ≡ unmarshal_as (codes k) (with_kind k ms)
unfolding unmarshal_device
unmarshal_device-with_kind k ms u h =
    ap (λ r. r >>= λ kind. unmarshal_as kind (with_kind k ms)) (unmarshal-kind k ms u h)

pub unmarshal_bootloader-with_kind :
    (k : String) (ms : List Member)
    → IsUtf8 (codes k)
    → IsForeign kind_fields ms
    → unmarshal_bootloader (with_kind k ms) ≡ bootloader_as (codes k) (with_kind k ms)
unfolding unmarshal_bootloader
unmarshal_bootloader-with_kind k ms u h =
    ap (λ r. r >>= λ kind. bootloader_as kind (with_kind k ms)) (unmarshal-kind k ms u h)

-- Reading what is written of the first device makes the second one.
abbrev pub ReadsBack : VirtioDevice → VirtioDevice → Type 0
ReadsBack d d' = unmarshal_device (marshal_device d) ≡ ok d'
