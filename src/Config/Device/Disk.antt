-- ===== src/Config/Device/Disk.antt =====
-- `DiskStorageConfig`, and the devices that are one: `NVMExpressController`, `VirtioBlk` and
-- `USBMassStorage` of pkg/config/virtio.go. The fields of `StorageConfig` stand in the record.
use vfkit.Base.{
  String, Bool, true, false, not, ◌||◌, List, [], ◌∷◌, ◌++◌, if◌then◌else◌, errorf, Result, ok, err,
  ◌>>=◌, ◌>>◌, for_each,
}
use vfkit.Text.{Text, codes, text_eq, is, is_empty}
use vfkit.Config.Options.{CmdOption}

pub record DiskStorageConfig : Type 0 where
  pub dev_name : Text
  pub read_only : Bool
  pub image_path : Text
  pub type : Text

-- `DiskBackendType.IsValid`
unfoldable pub is_valid_type : Text → Bool
unfolding is
is_valid_type typ = is typ "image" || is typ "dev" || is_empty typ

unfoldable pub to_cmd_line : DiskStorageConfig → Result (List Text)
to_cmd_line config =
    if is_empty config.image_path
    then err (errorf "%s devices need the path to a disk image" (config.dev_name ∷ []))
    else ok (
        codes "--device"
        ∷ (config.dev_name
            ++ (codes ",path="
                ++ (config.image_path
                    ++ ((if is_empty config.type then [] else codes ",type=" ++ config.type)
                        ++ (if config.read_only then codes ",readonly" else [])))))
        ∷ [])

unfoldable pub set_option : DiskStorageConfig → CmdOption → Result DiskStorageConfig
unfolding is is_valid_type
set_option config option =
    if is option.key "path"
    then ok (record config { image_path = option.value })
    else if is option.key "type"
    then (if not (is_valid_type option.value)
        then err (errorf "unexpected value for disk 'type' option: %s" (option.value ∷ []))
        else ok (record config { type = option.value }))
    else if is option.key "readonly"
    then (if not (is_empty option.value)
        then err
            (errorf "unexpected value for virtio-blk 'readonly' option: %s" (option.value ∷ []))
        else ok (record config { read_only = true }))
    else err (errorf "unknown option for %s devices: %s" (config.dev_name ∷ option.key ∷ []))

unfoldable pub from_options : DiskStorageConfig → List CmdOption → Result DiskStorageConfig
unfolding for_each set_option
from_options config options = for_each set_option config options

abbrev pub named : String → DiskStorageConfig
named name = record { dev_name = codes name; read_only = false; image_path = []; type = [] }

-- `nvmExpressControllerNewEmpty`, `NVMExpressControllerNew`
abbrev pub nvme_new_empty : DiskStorageConfig
nvme_new_empty = named "nvme"

abbrev pub nvme_new : Text → DiskStorageConfig
nvme_new image_path = record nvme_new_empty { image_path = image_path }

-- `usbMassStorageNewEmpty`, `USBMassStorageNew`, `SetReadOnly`
abbrev pub usb_new_empty : DiskStorageConfig
usb_new_empty = named "usb-mass-storage"

abbrev pub usb_new : Text → DiskStorageConfig
usb_new image_path = record usb_new_empty { image_path = image_path }

abbrev pub set_read_only : DiskStorageConfig → Bool → DiskStorageConfig
set_read_only dev read_only = record dev { read_only = read_only }

pub record VirtioBlk : Type 0 where
  pub disk : DiskStorageConfig
  pub device_identifier : Text

-- `virtioBlkNewEmpty`, `VirtioBlkNew`, `SetDeviceIdentifier`
abbrev pub blk_new_empty : VirtioBlk
blk_new_empty = record { disk = named "virtio-blk"; device_identifier = [] }

abbrev pub blk_new : Text → VirtioBlk
blk_new image_path = record blk_new_empty {
  disk = record (named "virtio-blk") { image_path = image_path };
}

abbrev pub set_device_identifier : VirtioBlk → Text → VirtioBlk
set_device_identifier dev id = record dev { device_identifier = id }

-- What `os.Open` and a read of four bytes answer on the host.
pub data FileHeader : Type 0 where
  cannot_open : Text → FileHeader
  cannot_read : Text → FileHeader
  header : Text → FileHeader

-- `qcow2Header`: "QFI" and the byte 0xfb
abbrev pub qcow2_header : Text
qcow2_header = 0x51 ∷ 0x46 ∷ 0x49 ∷ 0xfb ∷ []

unfoldable pub check_header : Text → FileHeader → Result (Unit {0})
check_header path (cannot_open why) = err (errorf "failed to open file %s: %v" (path ∷ why ∷ []))
check_header path (cannot_read why) =
    err (errorf "failed to read the header of file %s: %v" (path ∷ why ∷ []))
check_header path (header bytes) =
    if text_eq bytes qcow2_header
    then err (errorf "vfkit does not support qcow2 image format" [])
    else ok tt

-- The options that `VirtioBlk.FromOptions` does not handle itself, behind those seen so far.
unfoldable pub blk_set_options :
    VirtioBlk → List CmdOption → List CmdOption → VirtioBlk × List CmdOption
unfolding is
blk_set_options dev unhandled [] = (dev, unhandled)
blk_set_options dev unhandled (o ∷ os) = elim (is o.key "deviceId") [
  | true ↦ blk_set_options (record dev { device_identifier = o.value }) unhandled os
  | false ↦ blk_set_options dev (unhandled ++ o ∷ []) os
]

-- The host's files are an argument.
module _ (file : Text → FileHeader) where
  unfoldable pub blk_validate : VirtioBlk → Result (Unit {0})
  unfolding check_header
  blk_validate dev = check_header dev.disk.image_path (file dev.disk.image_path)

  unfoldable pub blk_from_options : VirtioBlk → List CmdOption → Result VirtioBlk
  unfolding blk_set_options from_options blk_validate
  blk_from_options dev options = do
    let (dev', unhandled) = blk_set_options dev [] options
    disk ← from_options dev'.disk unhandled
    blk_validate (record dev' { disk = disk })
    ok (record dev' { disk = disk })

-- What `VirtioBlk.ToCmdLine` does to the command line of its disk.
unfoldable pub append_device_id : Text → List Text → Result (List Text)
append_device_id id (flag ∷ value ∷ []) =
    if is_empty id
    then ok (flag ∷ value ∷ [])
    else ok (flag ∷ (value ++ (codes ",deviceId=" ++ id)) ∷ [])
append_device_id id _ = err (errorf "unexpected storage config commandline" [])

unfoldable pub blk_to_cmd_line : VirtioBlk → Result (List Text)
unfolding to_cmd_line append_device_id
blk_to_cmd_line dev = do
  cmd_line ← to_cmd_line dev.disk
  append_device_id dev.device_identifier cmd_line
