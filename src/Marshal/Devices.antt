-- ===== src/Marshal/Devices.antt =====
-- `MarshalJSON` of the devices in pkg/config/json.go.
use vfkit.Base.{not, String, List, [], ◌∷◌, ◌++◌}
use vfkit.Text.{codes}
use vfkit.Mac.{mac_string}
use vfkit.Config.Device.{
  VirtioDevice, rosetta, nvme, virtio_blk, virtio_fs, virtio_net, virtio_rng, virtio_serial,
  virtio_vsock, usb_mass_storage, virtio_input, virtio_gpu, virtio_balloon, nbd,
}
use vfkit.Config.Device.Disk.{DiskStorageConfig, VirtioBlk}
use vfkit.Config.Device.Gpu.{VirtioGpu}
use vfkit.Config.Device.Input.{VirtioInput}
use vfkit.Config.Device.Nbd.{NetworkBlockDevice}
use vfkit.Config.Device.Net.{VirtioNet, is_set}
use vfkit.Config.Device.Serial.{VirtioSerial}
use vfkit.Config.Device.Share.{VirtioFs, RosettaShare}
use vfkit.Config.Device.Vsock.{VirtioVsock}
use vfkit.Json.{Json, boolean, object, no_field, Member, to_fields}
use vfkit.Json.Members.{member, text, unsigned, signed, unless, text_unless_empty, flag_if_set}

-- A struct with `jsonKind` in front
unfoldable pub with_kind : String → List Member → Json
unfolding to_fields
with_kind kind ms = object (to_fields (member "kind" (text (codes kind)) ∷ ms))

unfoldable pub disk_members : DiskStorageConfig → List Member
disk_members d =
    member "devName" (text d.dev_name) ∷ flag_if_set "readOnly" d.read_only
    ++ (text_unless_empty "imagePath" d.image_path ++ text_unless_empty "type" d.type)

-- `MarshalJSON` of `NVMExpressController` and `USBMassStorage`
abbrev pub marshal_nvme : DiskStorageConfig → Json
marshal_nvme d = with_kind "nvme" (disk_members d)

abbrev pub marshal_usb : DiskStorageConfig → Json
marshal_usb d = with_kind "usbmassstorage" (disk_members d)

unfoldable pub marshal_blk : VirtioBlk → Json
unfolding with_kind disk_members
marshal_blk dev =
    with_kind "virtioblk"
      (disk_members dev.disk ++ text_unless_empty "deviceIdentifier" dev.device_identifier)

unfoldable pub marshal_fs : VirtioFs → Json
unfolding with_kind
marshal_fs dev =
    with_kind "virtiofs"
      (member "mountTag" (text dev.mount_tag) ∷ member "sharedDir" (text dev.shared_dir) ∷ [])

unfoldable pub marshal_rosetta : RosettaShare → Json
unfolding with_kind
marshal_rosetta dev = with_kind "rosetta" (
    member "mountTag" (text dev.mount_tag)
    ∷ member "installRosetta" (boolean dev.install_rosetta)
    ∷ member "ignoreIfMissing" (boolean dev.ignore_if_missing)
    ∷ [])

-- `virtioNetForMarshalling`; a file has no fields that are written.
unfoldable pub marshal_net : VirtioNet → Json
unfolding with_kind
marshal_net dev = with_kind "virtionet" (
    member "nat" (boolean dev.nat)
      ∷ unless (not (is_set dev.socket)) (member "socket" (object no_field))
    ++ (text_unless_empty "unixSocketPath" dev.unix_socket_path
        ++ (flag_if_set "vfkitMagic" dev.vfkit_magic
            ++ text_unless_empty "macAddress" (mac_string dev.mac_address))))

unfoldable pub marshal_serial : VirtioSerial → Json
unfolding with_kind
marshal_serial dev = with_kind "virtioserial" (
    text_unless_empty "logFile" dev.log_file
    ++ (flag_if_set "usesStdio" dev.uses_stdio
        ++ (flag_if_set "usesPty" dev.uses_pty ++ text_unless_empty "ptyName" dev.pty_name)))

unfoldable pub marshal_vsock : VirtioVsock → Json
unfolding with_kind
marshal_vsock dev = with_kind "virtiosock" (
    member "port" (unsigned dev.port)
    ∷ member "socketURL" (text dev.socket_url)
    ∷ flag_if_set "listen" dev.listen)

unfoldable pub marshal_input : VirtioInput → Json
unfolding with_kind
marshal_input dev = with_kind "virtioinput" (member "inputType" (text dev.input_type) ∷ [])

unfoldable pub marshal_gpu : VirtioGpu → Json
unfolding with_kind
marshal_gpu dev = with_kind "virtiogpu" (
    member "usesGUI" (boolean dev.uses_gui)
    ∷ member "width" (signed dev.width)
    ∷ member "height" (signed dev.height)
    ∷ [])

-- Its last three fields have no tag, so they are known by their names.
unfoldable pub marshal_nbd : NetworkBlockDevice → Json
unfolding with_kind
marshal_nbd dev = with_kind "nbd" (
    member "devName" (text dev.storage.dev_name) ∷ flag_if_set "readOnly" dev.storage.read_only
    ++ (text_unless_empty "uri" dev.storage.uri
        ++ member "DeviceIdentifier" (text dev.device_identifier)
          ∷ member "Timeout" (signed dev.timeout)
          ∷ member "SynchronizationMode" (text dev.synchronization_mode)
          ∷ []))

-- `MarshalJSON` of the interface
unfoldable pub marshal_device : VirtioDevice → Json
unfolding with_kind marshal_blk marshal_fs marshal_rosetta marshal_net marshal_serial marshal_vsock
    marshal_input marshal_gpu marshal_nbd
marshal_device (rosetta d) = marshal_rosetta d
marshal_device (nvme d) = marshal_nvme d
marshal_device (virtio_blk d) = marshal_blk d
marshal_device (virtio_fs d) = marshal_fs d
marshal_device (virtio_net d) = marshal_net d
marshal_device virtio_rng = with_kind "virtiorng" []
marshal_device (virtio_serial d) = marshal_serial d
marshal_device (virtio_vsock d) = marshal_vsock d
marshal_device (usb_mass_storage d) = marshal_usb d
marshal_device (virtio_input d) = marshal_input d
marshal_device (virtio_gpu d) = marshal_gpu d
marshal_device virtio_balloon = with_kind "virtioballoon" []
marshal_device (nbd d) = marshal_nbd d
