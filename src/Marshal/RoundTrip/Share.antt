-- ===== src/Marshal/RoundTrip/Share.antt =====
-- `VirtioFs`, `RosettaShare`, `VirtioVsock` and the devices with no fields.
use vfkit.Base.{◌<◌, ◌^◌, ◌≡◌, refl, ap, ◌∙◌, [], ◌∷◌, ok, none, ◌>>=◌, not, false, List}
use vfkit.Text.{codes}
use vfkit.Config.Device.{virtio_fs, rosetta, virtio_vsock, virtio_rng, virtio_balloon}
use vfkit.Config.Device.Share.{VirtioFs, RosettaShare}
use vfkit.Config.Device.Vsock.{VirtioVsock}
use vfkit.Config.Device.Vsock
use vfkit.Json.{Member, boolean}
use vfkit.Text.Utf8.{IsUtf8, to_valid_utf8}
use vfkit.Json.Members.{member, text, unsigned, flag_if_set}
use vfkit.Json.Struct.{find_field, store_member, store_members}
use vfkit.Json.ReadBack.{
  read-member, read-text, read-flag_if_set, read-last, last-IsForeign, read_uint-format,
}
use vfkit.Marshal.Devices.{with_kind, marshal_fs, marshal_rosetta, marshal_vsock, marshal_device}
use vfkit.Marshal.Fields.{kind_fields, fs_fields, rosetta_fields, vsock_fields}
use vfkit.Marshal.ReadDevices.{unmarshal_as, unmarshal_device}
use vfkit.Marshal.RoundTrip.Kind.{unmarshal-with_kind, unmarshal_device-with_kind, ReadsBack}

pub record IsFs (d : VirtioFs) : Type 0 where
  pub tag_text : IsUtf8 d.mount_tag
  pub dir_text : IsUtf8 d.shared_dir

pub record IsRosetta (d : RosettaShare) : Type 0 where
  pub tag_text : IsUtf8 d.mount_tag

-- The port is any `uint32`.
pub record IsVsock (d : VirtioVsock) : Type 0 where
  pub port_range : d.port < 2 ^ 32
  pub url_text : IsUtf8 d.socket_url

pub fs-ReadsBack : (d : VirtioFs) → IsFs d → ReadsBack (virtio_fs d) (virtio_fs d)
unfolding marshal_device marshal_fs to_valid_utf8 codes
fs-ReadsBack d h =
    let ms = member "mountTag" (text d.mount_tag) ∷ member "sharedDir" (text d.shared_dir) ∷ [] in
    unmarshal_device-with_kind "virtiofs" ms refl (unfold find_field in (refl, (refl, tt)))
    ∙ unfold unmarshal_as in
      ap (λ r. r >>= λ d. ok (virtio_fs d))
        (unmarshal-with_kind fs_fields "virtiofs" ms (record { mount_tag = []; shared_dir = [] }) d
          (unfold store_member in refl) (unfold store_members in rw (h.tag_text, h.dir_text)))

pub rosetta-ReadsBack : (d : RosettaShare) → IsRosetta d → ReadsBack (rosetta d) (rosetta d)
unfolding marshal_device marshal_rosetta to_valid_utf8 codes
rosetta-ReadsBack d h =
    let ms =
      member "mountTag" (text d.mount_tag)
      ∷ member "installRosetta" (boolean d.install_rosetta)
      ∷ member "ignoreIfMissing" (boolean d.ignore_if_missing)
      ∷ [] in
    unmarshal_device-with_kind "rosetta" ms refl (unfold find_field in (refl, (refl, (refl, tt))))
    ∙ unfold unmarshal_as in
      ap (λ r. r >>= λ d. ok (rosetta d))
        (unmarshal-with_kind rosetta_fields "rosetta" ms
          (record { mount_tag = []; install_rosetta = false; ignore_if_missing = false }) d
          (unfold store_member in refl) (unfold store_members in rw h.tag_text))

abbrev vsock_members : VirtioVsock → List Member
vsock_members d =
    member "port" (unsigned d.port)
    ∷ member "socketURL" (text d.socket_url)
    ∷ flag_if_set "listen" d.listen

read-vsock_members :
    (d : VirtioVsock)
    → IsVsock d
    → store_members vsock_fields (vsock_members d) Vsock.empty none ≡ ok d
unfolding store_member codes
read-vsock_members d h =
    let at_port = record Vsock.empty { port = d.port } in
    let at_url = record at_port { socket_url = d.socket_url } in
    read-member vsock_fields (member "port" (unsigned d.port)) _ Vsock.empty at_port
      (rw (read_uint-format 32 d.port h.port_range))
    ∙ (read-text vsock_fields "socketURL" _ at_port (λ w. record at_port { socket_url = w })
          d.socket_url h.url_text (λ w. refl)
        ∙ read-last vsock_fields (flag_if_set "listen" d.listen) at_url d (
            read-flag_if_set vsock_fields "listen" [] (λ b. record at_url { listen = b }) d.listen
              refl))

pub vsock-ReadsBack : (d : VirtioVsock) → IsVsock d → ReadsBack (virtio_vsock d) (virtio_vsock d)
unfolding marshal_device marshal_vsock to_valid_utf8 codes
vsock-ReadsBack d h =
    unmarshal_device-with_kind "virtiosock" (vsock_members d) refl
      (unfold find_field in (refl, (refl, last-IsForeign kind_fields (not d.listen) _ refl)))
    ∙ unfold unmarshal_as in
      ap (λ r. r >>= λ d. ok (virtio_vsock d))
        (unmarshal-with_kind vsock_fields "virtiosock" (vsock_members d) Vsock.empty d
          (unfold store_member in refl) (read-vsock_members d h))

pub rng-ReadsBack : ReadsBack virtio_rng virtio_rng
unfolding marshal_device to_valid_utf8 codes unmarshal_as
rng-ReadsBack = unfold with_kind unmarshal_device in refl

pub balloon-ReadsBack : ReadsBack virtio_balloon virtio_balloon
unfolding marshal_device to_valid_utf8 codes unmarshal_as
balloon-ReadsBack = unfold with_kind unmarshal_device in refl
