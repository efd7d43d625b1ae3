-- ===== src/Marshal/RoundTrip/Disk.antt =====
-- `NVMExpressController`, `USBMassStorage` and `VirtioBlk`.
use vfkit.Base.{
  ◌≡◌, refl, ap, ◌∙◌, List, [], ◌∷◌, ◌++◌, ok, some, none, ◌>>=◌, append_assoc, append-nil, subst,
  not, true, String,
}
use vfkit.Text.{Text, codes, is_empty}
use vfkit.Config.Device.{nvme, usb_mass_storage, virtio_blk}
use vfkit.Config.Device.Disk.{DiskStorageConfig, VirtioBlk}
use vfkit.Json.{Member, boolean, string}
use vfkit.Text.Utf8.{IsUtf8, to_valid_utf8}
use vfkit.Json.Members.{member, unless, text_unless_empty, flag_if_set}
use vfkit.Json.Struct.{Field, find_field, store_member, store_members, unmarshal}
use vfkit.Json.ReadBack.{
  read-text, read-text_unless_empty, read-flag_if_set, unless-IsForeign, IsForeign,
}
use vfkit.Marshal.Devices.{with_kind, disk_members, marshal_blk, marshal_device}
use vfkit.Marshal.Fields.{kind_fields, disk_fields, blk_fields}
use vfkit.Marshal.ReadDevices.{unmarshal_device, unmarshal_as, no_disk}
use vfkit.Marshal.RoundTrip.Kind.{unmarshal-with_kind, unmarshal_device-with_kind, ReadsBack}

pub record IsDisk (d : DiskStorageConfig) : Type 0 where
  pub name_text : IsUtf8 d.dev_name
  pub path_text : IsUtf8 d.image_path
  pub type_text : IsUtf8 d.type

pub record IsBlk (d : VirtioBlk) : Type 0 where
  pub is_disk : IsDisk d.disk
  pub identifier_text : IsUtf8 d.device_identifier

module _ {S : Type 0} (fs : List (Field S)) (put : DiskStorageConfig → S) where
  -- The fields of a disk, in any struct that has them.
  abbrev StoresDisk : Type 0
  StoresDisk =
      ((d : DiskStorageConfig) (w : Text)
        → store_member fs (member "devName" (string w)) (put d)
          ≡ some (put (record d { dev_name = w })))
      × ((d : DiskStorageConfig) (w : Text)
          → store_member fs (member "imagePath" (string w)) (put d)
            ≡ some (put (record d { image_path = w })))
      × ((d : DiskStorageConfig) (w : Text)
          → store_member fs (member "type" (string w)) (put d) ≡ some (put (record d { type = w })))
      × ((d : DiskStorageConfig)
          → store_member fs (member "readOnly" (boolean true)) (put d)
            ≡ some (put (record d { read_only = true })))

  disk-read :
      (d : DiskStorageConfig) (ms : List Member)
      → IsDisk d
      → StoresDisk
      → store_members fs (disk_members d ++ ms) (put no_disk) none
        ≡ store_members fs ms (put d) none
  unfolding disk_members
  disk-read d ms h (dev, path, type, read) =
      let named = record no_disk { dev_name = d.dev_name } in
      let flagged = record named { read_only = d.read_only } in
      let at_path = record flagged { image_path = d.image_path } in
      rw
        (
          append_assoc (flag_if_set "readOnly" d.read_only)
              (text_unless_empty "imagePath" d.image_path ++ text_unless_empty "type" d.type) ms,
          append_assoc (text_unless_empty "imagePath" d.image_path)
              (text_unless_empty "type" d.type) ms,
        )
        (read-text fs "devName" _ (put no_disk) (λ w. put (record no_disk { dev_name = w }))
            d.dev_name h.name_text (dev no_disk)
          ∙ (read-flag_if_set fs "readOnly" _ (λ b. put (record named { read_only = b }))
                d.read_only (read named)
              ∙ (read-text_unless_empty fs "imagePath" _
                    (λ w. put (record flagged { image_path = w })) d.image_path h.path_text
                    (path flagged)
                  ∙ read-text_unless_empty fs "type" ms (λ w. put (record at_path { type = w }))
                      d.type h.type_text (type at_path))))

disk-StoresDisk : StoresDisk disk_fields (λ d. d)
unfolding store_member codes
disk-StoresDisk = (λ d w. refl, λ d w. refl, λ d w. refl, λ d. refl)

blk-StoresDisk : StoresDisk blk_fields (λ d. record { disk = d; device_identifier = [] })
unfolding store_member codes
blk-StoresDisk = (λ d w. refl, λ d w. refl, λ d w. refl, λ d. refl)

disk_members-IsForeign :
    (d : DiskStorageConfig) (ms : List Member)
    → IsForeign kind_fields ms
    → IsForeign kind_fields (disk_members d ++ ms)
unfolding disk_members codes find_field
disk_members-IsForeign d ms h =
    rw
      (
        append_assoc (flag_if_set "readOnly" d.read_only)
            (text_unless_empty "imagePath" d.image_path ++ text_unless_empty "type" d.type) ms,
        append_assoc (text_unless_empty "imagePath" d.image_path) (text_unless_empty "type" d.type)
            ms,
      )
      (
        refl,
        unless-IsForeign kind_fields (not d.read_only) _ _ refl (
            unless-IsForeign kind_fields (is_empty d.image_path) _ _ refl
              (unless-IsForeign kind_fields (is_empty d.type) _ ms refl h)),
      )

unmarshal-disk_members :
    (k : String) (d : DiskStorageConfig)
    → IsDisk d
    → unmarshal disk_fields (with_kind k (disk_members d)) no_disk ≡ ok d
unmarshal-disk_members k d h =
    unmarshal-with_kind disk_fields k (disk_members d) no_disk d (unfold store_member codes in refl)
      (subst (λ ms. store_members disk_fields ms no_disk none ≡ ok d) (append-nil (disk_members d))
        (disk-read disk_fields (λ d. d) d [] h disk-StoresDisk ∙ unfold store_members in refl))

unmarshal_device-disk_members :
    (k : String) (d : DiskStorageConfig)
    → IsUtf8 (codes k)
    → unmarshal_device (with_kind k (disk_members d))
      ≡ unmarshal_as (codes k) (with_kind k (disk_members d))
unmarshal_device-disk_members k d u =
    unmarshal_device-with_kind k (disk_members d) u
      (subst (IsForeign kind_fields) (append-nil (disk_members d)) (disk_members-IsForeign d [] tt))

pub nvme-ReadsBack : (d : DiskStorageConfig) → IsDisk d → ReadsBack (nvme d) (nvme d)
unfolding marshal_device to_valid_utf8
nvme-ReadsBack d h =
    unmarshal_device-disk_members "nvme" d (unfold codes in refl)
    ∙ unfold unmarshal_as codes in
      ap (λ r. r >>= λ d. ok (nvme d)) (unmarshal-disk_members "nvme" d h)

pub usb-ReadsBack :
    (d : DiskStorageConfig) → IsDisk d → ReadsBack (usb_mass_storage d) (usb_mass_storage d)
unfolding marshal_device to_valid_utf8
usb-ReadsBack d h =
    unmarshal_device-disk_members "usbmassstorage" d (unfold codes in refl)
    ∙ unfold unmarshal_as codes in
      ap (λ r. r >>= λ d. ok (usb_mass_storage d)) (unmarshal-disk_members "usbmassstorage" d h)

abbrev id_members : Text → List Member
id_members id = text_unless_empty "deviceIdentifier" id

id_members-IsForeign : (id : Text) → IsForeign kind_fields (id_members id)
unfolding codes find_field unless
id_members-IsForeign [] = tt
id_members-IsForeign (c ∷ id) = (refl, tt)

read-id_members :
    (d : DiskStorageConfig) (id : Text)
    → IsUtf8 id
    → store_members blk_fields (id_members id) (record { disk = d; device_identifier = [] }) none
      ≡ ok (record { disk = d; device_identifier = id })
unfolding store_members codes unless
read-id_members d [] u = refl
read-id_members d (c ∷ id) u = rw u refl

unmarshal-blk :
    (d : VirtioBlk)
    → IsBlk d
    → unmarshal blk_fields (marshal_blk d) (record { disk = no_disk; device_identifier = [] })
      ≡ ok d
unfolding marshal_blk
unmarshal-blk d h =
    let ms = id_members d.device_identifier in
    unmarshal-with_kind blk_fields "virtioblk" (disk_members d.disk ++ ms) _ d
      (unfold store_member codes in refl)
      (disk-read blk_fields (λ d. record { disk = d; device_identifier = [] }) d.disk ms h.is_disk
          blk-StoresDisk
        ∙ read-id_members d.disk d.device_identifier h.identifier_text)

pub blk-ReadsBack : (d : VirtioBlk) → IsBlk d → ReadsBack (virtio_blk d) (virtio_blk d)
unfolding marshal_device marshal_blk to_valid_utf8
blk-ReadsBack d h =
    unmarshal_device-with_kind "virtioblk" (disk_members d.disk ++ id_members d.device_identifier)
      (unfold codes in refl)
      (disk_members-IsForeign d.disk _ (id_members-IsForeign d.device_identifier))
    ∙ unfold unmarshal_as codes in ap (λ r. r >>= λ d. ok (virtio_blk d)) (unmarshal-blk d h)
