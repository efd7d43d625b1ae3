-- ===== src/Config/Device/RoundTrip/Disk.antt =====
-- Disk images: `NVMExpressController`, `USBMassStorage` and `VirtioBlk`.
use vfkit.Base.{
  Bool, true, false, List, [], ◌∷◌, ◌++◌, ◌≡◌, ◌≢◌, refl, arith, ok, All, All-append, append-nil,
  String, ap, sym, subst,
}
use vfkit.Text.{Text, codes, join, comma}
use vfkit.Text.Join.{join-concat}
use vfkit.Config.Options.{strv_to_options}
use vfkit.Config.Device.{nvme, usb_mass_storage, virtio_blk, to_cmd_line, from_options, new_device}
use vfkit.Config.Device.Disk.{
  DiskStorageConfig, FileHeader, VirtioBlk, is_valid_type, blk_set_options, blk_from_options,
  blk_validate, blk_to_cmd_line, named, check_header,
}
use vfkit.Config.Device.Disk
use vfkit.Config.Device.RoundTrip.Parts.{IsPart, ReadsAs, ReadsAs-parts}

pub record IsDisk (name : String) (d : DiskStorageConfig) : Type 0 where
  pub name_is : d.dev_name ≡ codes name
  pub path_part : IsPart d.image_path
  pub path_set : d.image_path ≢ []
  pub type_part : IsPart d.type
  pub type_valid : is_valid_type d.type ≡ true

abbrev type_opts : Text → List Text → List Text
type_opts [] rest = rest
type_opts (c ∷ t) rest = (codes "type=" ++ c ∷ t) ∷ rest

abbrev flag_opts : Bool → String → List Text
flag_opts true name = codes name ∷ []
flag_opts false name = []

-- The parts behind the name of the device.
abbrev disk_opts : DiskStorageConfig → List Text
disk_opts d = (codes "path=" ++ d.image_path) ∷ type_opts d.type (flag_opts d.read_only "readonly")

disk_opts-IsPart :
    (name : String) (d : DiskStorageConfig) → IsDisk name d → All IsPart (disk_opts d)
unfolding codes
disk_opts-IsPart name d v = parts d.type d.read_only v.type_part
  where
    parts :
        (t : Text) (r : Bool)
        → IsPart t
        → All IsPart (disk_opts (record d { type = t; read_only = r }))
    parts [] true h = ground (arith, v.path_part)
    parts [] false h = ground (arith, v.path_part)
    parts (c ∷ t) true h = ground (arith, v.path_part)
    parts (c ∷ t) false h = ground (arith, v.path_part)

disk-written :
    (name path t : Text) (r : Bool)
    → path ≢ []
    → let d : DiskStorageConfig = record {
      dev_name = name;
      read_only = r;
      image_path = path;
      type = t;
    } in
      Disk.to_cmd_line d ≡ ok (codes "--device" ∷ join (comma ∷ []) (name ∷ disk_opts d) ∷ [])
unfolding Disk.to_cmd_line codes join
disk-written name [] t r ne = absurd (ne refl)
disk-written name (p ∷ path) [] true ne = refl
disk-written name (p ∷ path) [] false ne = rw append-nil
disk-written name (p ∷ path) (c ∷ t) true ne = refl
disk-written name (p ∷ path) (c ∷ t) false ne = rw append-nil

disk-read :
    (name path t : Text) (r : Bool)
    → is_valid_type t ≡ true
    → let d : DiskStorageConfig = record {
      dev_name = name;
      read_only = r;
      image_path = path;
      type = t;
    } in
      Disk.from_options
        (record { dev_name = name; read_only = false; image_path = []; type = [] })
        (strv_to_options (disk_opts d))
      ≡ ok d
unfolding Disk.from_options codes strv_to_options
disk-read name path [] true h = refl
disk-read name path [] false h = refl
disk-read name path (c ∷ t) true h = rw h
disk-read name path (c ∷ t) false h = rw h

abbrev id_opts : Text → List Text
id_opts [] = []
id_opts (c ∷ id) = (codes "deviceId=" ++ c ∷ id) ∷ []

-- A disk whose file can be read and is no qcow2 image.
pub record IsBlk (file : Text → FileHeader) (d : VirtioBlk) : Type 0 where
  pub disk_is : IsDisk "virtio-blk" d.disk
  pub id_part : IsPart d.device_identifier
  pub accepted : check_header d.disk.image_path (file d.disk.image_path) ≡ ok tt

module _ (file : Text → FileHeader) where
  nvme_fields :
      (path t : Text) (r : Bool)
      → let d : DiskStorageConfig = record {
        dev_name = codes "nvme";
        read_only = r;
        image_path = path;
        type = t;
      } in
        IsDisk "nvme" d → ReadsAs file (nvme d) (nvme d)
  unfolding to_cmd_line new_device from_options
  nvme_fields path t r v =
      let d : DiskStorageConfig = record {
        dev_name = codes "nvme";
        read_only = r;
        image_path = path;
        type = t;
      } in
      ReadsAs-parts file (nvme d) (nvme d) (codes "nvme") (disk_opts d)
        (unfold codes in omega arith, disk_opts-IsPart "nvme" d v)
        (disk-written (codes "nvme") path t r v.path_set)
        (rw (disk-read (codes "nvme") path t r v.type_valid))

  pub nvme-ReadsAs : (d : DiskStorageConfig) → IsDisk "nvme" d → ReadsAs file (nvme d) (nvme d)
  nvme-ReadsAs d v =
      let e : d ≡ record d { dev_name = codes "nvme" } =
        ap (λ (n : Text). let e : DiskStorageConfig = record d { dev_name = n } in e) v.name_is in
      subst (λ e. IsDisk "nvme" e → ReadsAs file (nvme e) (nvme e)) (sym e)
        (nvme_fields d.image_path d.type d.read_only) v

  usb_fields :
      (path t : Text) (r : Bool)
      → let d : DiskStorageConfig = record {
        dev_name = codes "usb-mass-storage";
        read_only = r;
        image_path = path;
        type = t;
      } in
        IsDisk "usb-mass-storage" d → ReadsAs file (usb_mass_storage d) (usb_mass_storage d)
  unfolding to_cmd_line new_device from_options
  usb_fields path t r v =
      let d : DiskStorageConfig = record {
        dev_name = codes "usb-mass-storage";
        read_only = r;
        image_path = path;
        type = t;
      } in
      ReadsAs-parts file (usb_mass_storage d) (usb_mass_storage d) (codes "usb-mass-storage")
        (disk_opts d) (unfold codes in omega arith, disk_opts-IsPart "usb-mass-storage" d v)
        (disk-written (codes "usb-mass-storage") path t r v.path_set)
        (rw (disk-read (codes "usb-mass-storage") path t r v.type_valid))

  pub usb-ReadsAs :
      (d : DiskStorageConfig)
      → IsDisk "usb-mass-storage" d
      → ReadsAs file (usb_mass_storage d) (usb_mass_storage d)
  usb-ReadsAs d v =
      let e : d ≡ record d { dev_name = codes "usb-mass-storage" } =
        ap (λ (n : Text). let e : DiskStorageConfig = record d { dev_name = n } in e) v.name_is in
      subst
        (λ e. IsDisk "usb-mass-storage" e → ReadsAs file (usb_mass_storage e) (usb_mass_storage e))
        (sym e) (usb_fields d.image_path d.type d.read_only) v

  blk-read :
      (path t id : Text) (r : Bool)
      → is_valid_type t ≡ true
      → check_header path (file path) ≡ ok tt
      → let d : DiskStorageConfig = record {
        dev_name = codes "virtio-blk";
        read_only = r;
        image_path = path;
        type = t;
      } in
        blk_from_options file Disk.blk_new_empty (strv_to_options (disk_opts d ++ id_opts id))
        ≡ ok (record { disk = d; device_identifier = id })
  unfolding blk_from_options codes strv_to_options
  blk-read path [] [] true h v = rw v
  blk-read path [] [] false h v = rw v
  blk-read path [] (b ∷ id) true h v = rw v
  blk-read path [] (b ∷ id) false h v = rw v
  blk-read path (c ∷ t) [] true h v = rw (h, v)
  blk-read path (c ∷ t) [] false h v = rw (h, v)
  blk-read path (c ∷ t) (b ∷ id) true h v = rw (h, v)
  blk-read path (c ∷ t) (b ∷ id) false h v = rw (h, v)

  blk-written :
      (d : DiskStorageConfig) (id : Text)
      → d.image_path ≢ []
      → blk_to_cmd_line (record { disk = d; device_identifier = id })
        ≡ ok (codes "--device" ∷ join (comma ∷ []) (d.dev_name ∷ (disk_opts d ++ id_opts id)) ∷ [])
  unfolding blk_to_cmd_line
  blk-written d [] ne = rw (disk-written d.dev_name d.image_path d.type d.read_only ne, append-nil)
  blk-written d (b ∷ id) ne =
      rw
        (
          disk-written d.dev_name d.image_path d.type d.read_only ne,
          join-concat (comma ∷ []) d.dev_name (disk_opts d) (codes "deviceId=" ++ b ∷ id),
        )
        (unfold codes in refl)

  id_opts-IsPart : (id : Text) → IsPart id → All IsPart (id_opts id)
  unfolding codes
  id_opts-IsPart [] h = tt
  id_opts-IsPart (c ∷ id) h = ground arith

  blk_fields :
      (path t id : Text) (r : Bool)
      → let d : VirtioBlk = record {
        disk = record { dev_name = codes "virtio-blk"; read_only = r; image_path = path; type = t };
        device_identifier = id;
      } in
        IsBlk file d → ReadsAs file (virtio_blk d) (virtio_blk d)
  unfolding to_cmd_line new_device from_options
  blk_fields path t id r v =
      let d : DiskStorageConfig = record {
        dev_name = codes "virtio-blk";
        read_only = r;
        image_path = path;
        type = t;
      } in
      let b : VirtioBlk = record { disk = d; device_identifier = id } in
      ReadsAs-parts file (virtio_blk b) (virtio_blk b) (codes "virtio-blk")
        (disk_opts d ++ id_opts id)
        (
          unfold codes in omega arith,
          All-append IsPart (disk_opts d) (id_opts id) (disk_opts-IsPart "virtio-blk" d v.disk_is)
              (id_opts-IsPart id v.id_part),
        )
        (blk-written d id v.disk_is.path_set)
        (rw (blk-read path t id r v.disk_is.type_valid v.accepted))

  pub blk-ReadsAs : (d : VirtioBlk) → IsBlk file d → ReadsAs file (virtio_blk d) (virtio_blk d)
  blk-ReadsAs d v =
      let e : d ≡ record d { disk = record d.disk { dev_name = codes "virtio-blk" } } =
        ap
          (λ (n : Text).
            let e : VirtioBlk = record d { disk = record d.disk { dev_name = n } } in e)
          v.disk_is.name_is in
      subst (λ e. IsBlk file e → ReadsAs file (virtio_blk e) (virtio_blk e)) (sym e)
        (blk_fields d.disk.image_path d.disk.type d.device_identifier d.disk.read_only) v
