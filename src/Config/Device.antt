-- ===== src/Config/Device.antt =====
-- `VirtioDevice` of pkg/config/virtio.go: the interface, with one constructor for each type that
-- implements it, and `deviceFromCmdLine`.
pub mod Disk
pub mod Gpu
pub mod Input
pub mod Nbd
pub mod Net
pub mod Serial
pub mod Share
pub mod Vsock
pub mod RoundTrip
pub mod Accepted
use vfkit.Base.{
  false, Option, none, some, List, [], ◌∷◌, if◌then◌else◌, errorf, Result, ok, err, ◌>>=◌,
}
use vfkit.Text.{Text, codes, is, split, comma}
use vfkit.Config.Options.{CmdOption, strv_to_options}
use Disk.{DiskStorageConfig, VirtioBlk, FileHeader}
use Gpu.{VirtioGpu}
use Input.{VirtioInput}
use Nbd.{NetworkBlockDevice}
use Net.{VirtioNet}
use Serial.{VirtioSerial}
use Share.{VirtioFs, RosettaShare}
use Vsock.{VirtioVsock}

pub data VirtioDevice : Type 0 where
  rosetta : RosettaShare → VirtioDevice
  nvme : DiskStorageConfig → VirtioDevice
  virtio_blk : VirtioBlk → VirtioDevice
  virtio_fs : VirtioFs → VirtioDevice
  virtio_net : VirtioNet → VirtioDevice
  virtio_rng : VirtioDevice
  virtio_serial : VirtioSerial → VirtioDevice
  virtio_vsock : VirtioVsock → VirtioDevice
  usb_mass_storage : DiskStorageConfig → VirtioDevice
  virtio_input : VirtioInput → VirtioDevice
  virtio_gpu : VirtioGpu → VirtioDevice
  virtio_balloon : VirtioDevice
  nbd : NetworkBlockDevice → VirtioDevice

-- `ToCmdLine` of the interface
unfoldable pub to_cmd_line : VirtioDevice → Result (List Text)
to_cmd_line (rosetta d) = Share.rosetta_to_cmd_line d
to_cmd_line (nvme d) = Disk.to_cmd_line d
to_cmd_line (virtio_blk d) = Disk.blk_to_cmd_line d
to_cmd_line (virtio_fs d) = Share.fs_to_cmd_line d
to_cmd_line (virtio_net d) = Net.to_cmd_line d
to_cmd_line virtio_rng = ok (codes "--device" ∷ codes "virtio-rng" ∷ [])
to_cmd_line (virtio_serial d) = Serial.to_cmd_line d
to_cmd_line (virtio_vsock d) = Vsock.to_cmd_line d
to_cmd_line (usb_mass_storage d) = Disk.to_cmd_line d
to_cmd_line (virtio_input d) = Input.to_cmd_line d
to_cmd_line (virtio_gpu d) = Gpu.to_cmd_line d
to_cmd_line virtio_balloon = ok (codes "--device" ∷ codes "virtio-balloon" ∷ [])
to_cmd_line (nbd d) = Nbd.to_cmd_line d

-- The device that `deviceFromCmdLine` makes for a name, before its options.
unfoldable pub new_device : Text → Option VirtioDevice
unfolding is
new_device name =
    if is name "rosetta"
    then some
        (rosetta (record { mount_tag = []; install_rosetta = false; ignore_if_missing = false }))
    else if is name "nvme"
    then some (nvme Disk.nvme_new_empty)
    else if is name "virtio-blk"
    then some (virtio_blk Disk.blk_new_empty)
    else if is name "virtio-fs"
    then some (virtio_fs (record { mount_tag = []; shared_dir = [] }))
    else if is name "virtio-net"
    then some (virtio_net Net.empty)
    else if is name "virtio-rng"
    then some virtio_rng
    else if is name "virtio-serial"
    then some (virtio_serial Serial.empty)
    else if is name "virtio-vsock"
    then some (virtio_vsock Vsock.empty)
    else if is name "usb-mass-storage"
    then some (usb_mass_storage Disk.usb_new_empty)
    else if is name "virtio-input"
    then some (virtio_input (record { input_type = [] }))
    else if is name "virtio-gpu"
    then some (virtio_gpu Gpu.empty)
    else if is name "virtio-balloon"
    then some virtio_balloon
    else if is name "nbd"
    then some (nbd Nbd.new_empty)
    else none

-- The host's files, by path.
module _ (file : Text → FileHeader) where
  -- `FromOptions` of the interface
  unfoldable pub from_options : VirtioDevice → List CmdOption → Result VirtioDevice
  from_options (rosetta d) os = do r ← Share.rosetta_from_options d os; ok (rosetta r)
  from_options (nvme d) os = do r ← Disk.from_options d os; ok (nvme r)
  from_options (virtio_blk d) os = do r ← Disk.blk_from_options file d os; ok (virtio_blk r)
  from_options (virtio_fs d) os = do r ← Share.fs_from_options d os; ok (virtio_fs r)
  from_options (virtio_net d) os = do r ← Net.from_options d os; ok (virtio_net r)
  from_options virtio_rng os = do
    _ ← Share.no_options "unknown options for virtio-rng devices: %s" os
    ok virtio_rng
  from_options (virtio_serial d) os = do r ← Serial.from_options d os; ok (virtio_serial r)
  from_options (virtio_vsock d) os = do r ← Vsock.from_options d os; ok (virtio_vsock r)
  from_options (usb_mass_storage d) os = do r ← Disk.from_options d os; ok (usb_mass_storage r)
  from_options (virtio_input d) os = do r ← Input.from_options d os; ok (virtio_input r)
  from_options (virtio_gpu d) os = do r ← Gpu.from_options d os; ok (virtio_gpu r)
  from_options virtio_balloon os = do
    _ ← Share.no_options "unknown options for virtio-balloon devices: %s" os
    ok virtio_balloon
  from_options (nbd d) os = do r ← Nbd.from_options d os; ok (nbd r)

  abbrev pub configure : Text → Option VirtioDevice → List Text → Result VirtioDevice
  configure name none opts = err (errorf "unknown device type: %s" (name ∷ []))
  configure name (some dev) opts = from_options dev (strv_to_options opts)

  abbrev pub device_from_parts : List Text → Result VirtioDevice
  device_from_parts [] = err (errorf "empty option list in command line argument" [])
  device_from_parts (name ∷ opts) = configure name (new_device name) opts

  unfoldable pub device_from_cmd_line : Text → Result VirtioDevice
  unfolding from_options new_device
  device_from_cmd_line device_opts = device_from_parts (split comma device_opts)
