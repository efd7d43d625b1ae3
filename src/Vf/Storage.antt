-- ===== src/Vf/Storage.antt =====
-- Storage devices of pkg/vf/virtio.go: attachments of disks, and network block devices.
use vfkit.Base.{
  wrapped, Bool, true, false, not, ◌&&◌, ◌==◌, [], ◌∷◌, if◌then◌else◌, ltb, length, errorf, Result,
  ok, err, ◌>>=◌, ◌>>◌, fail_if,
}
use vfkit.Base.Int.{ℤ}
use vfkit.Text.{Text, is, is_empty}
use vfkit.Config.Device.Disk.{DiskStorageConfig, VirtioBlk, is_valid_type}
use vfkit.Config.Device.Nbd.{NetworkBlockDevice}

-- What makes storage: attachments of an image, of a block device (a file that `lstat` finds to be
-- one, then opened and attached) and of a server, controllers with an attachment, and the scheme
-- that `url.Parse` finds.
pub record StorageMaker (Native : Type 0) : Type 0 where
  pub image : Text → Bool → Result Native
  pub is_block_device : Text → Result Bool
  pub block_device : Text → Bool → Result Native
  pub scheme : Text → Result Text
  pub server : Text → ℤ → Bool → Bool → Result Native
  pub nvme_controller : Native → Result Native
  pub virtio_block : Native → Result Native
  pub usb_storage : Native → Result Native
  pub set_identifier : Native → Text → Result Native

abbrev has_slash : Text → Bool
has_slash [] = false
has_slash (c ∷ s) = elim (c == b'/') [ true ↦ true | false ↦ has_slash s ]

-- `validateNbdDeviceIdentifier`
unfoldable pub validate_nbd_device_identifier : Text → Result (Unit {0})
validate_nbd_device_identifier id = do
  fail_if (is_empty id) (errorf "'deviceId' must be specified" [])
  fail_if (has_slash id) (errorf "invalid 'deviceId': it cannot contain any forward slash" [])
  fail_if (ltb 255 (length id)) (errorf "invalid 'deviceId': exceeds maximum length" [])
  ok tt

module _ {Native : Type 0} (maker : StorageMaker Native) where
  -- `DiskStorageConfig.toVz`
  unfoldable pub disk_attachment : DiskStorageConfig → Result Native
  unfolding is
  disk_attachment conf =
      if is conf.type "image"
      then image
      else if is_empty conf.type
      then image
      else if is conf.type "dev"
      then block
      else err (errorf "unknown disk backend type: %v" (conf.type ∷ []))
    where
      image : Result Native
      image = do
        fail_if (is_empty conf.image_path)
            (errorf "missing mandatory 'path' option for %s device" (conf.dev_name ∷ []))
        maker.image conf.image_path conf.read_only

      block : Result Native
      block = do
        found ← wrapped "error stating file: %v" (maker.is_block_device conf.image_path)
        fail_if (not found) (errorf "file %s is not a block device" (conf.image_path ∷ []))
        maker.block_device conf.image_path conf.read_only

  -- `NVMExpressController.toVz`
  unfoldable pub nvme_storage : DiskStorageConfig → Result Native
  unfolding disk_attachment
  nvme_storage dev = do attachment ← disk_attachment dev; maker.nvme_controller attachment

  -- `USBMassStorage.toVz`
  unfoldable pub usb_storage : DiskStorageConfig → Result Native
  unfolding disk_attachment
  usb_storage dev = do attachment ← disk_attachment dev; maker.usb_storage attachment

  -- `VirtioBlk.toVz`, and the check of the type behind it
  unfoldable pub blk_storage : VirtioBlk → Result Native
  unfolding disk_attachment is_valid_type
  blk_storage dev = do
    attachment ← disk_attachment dev.disk
    n ← maker.virtio_block attachment
    n' ←
        if is_empty dev.device_identifier
        then ok n
        else maker.set_identifier n dev.device_identifier
    fail_if (not (is_valid_type dev.disk.type))
        (errorf "invalid disk type: %s" (dev.disk.type ∷ []))
    ok n'

  -- `validateNbdURI`
  unfoldable pub validate_nbd_uri : Text → Result (Unit {0})
  unfolding is
  validate_nbd_uri uri = do
    fail_if (is_empty uri) (errorf "'uri' must be specified" [])
    scheme ← wrapped "error: %w" (maker.scheme uri)
    fail_if
        (not (is scheme "nbd")
          && not (is scheme "nbds")
          && not (is scheme "nbd+unix")
          && not (is scheme "nbds+unix"))
        (errorf "invalid scheme: %s. Expected one of: 'nbd', 'nbds', 'nbd+unix', or 'nbds+unix'"
          (scheme ∷ []))
    ok tt

  -- `NetworkBlockDevice.toVz`; the last argument of the attachment is the full synchronization mode.
  unfoldable pub nbd_storage : NetworkBlockDevice → Result Native
  unfolding validate_nbd_uri validate_nbd_device_identifier is
  nbd_storage dev = do
    wrapped "invalid NBD device 'uri': %s" (validate_nbd_uri dev.storage.uri)
    wrapped "invalid NBD device 'deviceId': %s"
        (validate_nbd_device_identifier dev.device_identifier)
    attachment ←
        maker.server dev.storage.uri dev.timeout dev.storage.read_only
          (not (is dev.synchronization_mode "none"))
    n ← maker.virtio_block attachment
    maker.set_identifier n dev.device_identifier
