-- ===== src/Marshal/ReadDevices.antt =====
-- `unmarshalDevice` and `unmarshalDevices` of pkg/config/json.go.
use vfkit.Base.{
  true, false, List, [], ◌∷◌, ◌++◌, if◌then◌else◌, Error, errorf, panic, Result, ok, err, ◌>>=◌,
}
use vfkit.Base.Int.{pos}
use vfkit.Text.{Text, codes, is, is_empty}
use vfkit.Mac.{parse_mac}
use vfkit.Config.Device.{
  VirtioDevice, rosetta, nvme, virtio_blk, virtio_fs, virtio_net, virtio_rng, virtio_serial,
  virtio_vsock, usb_mass_storage, virtio_input, virtio_gpu, virtio_balloon, nbd,
}
use vfkit.Config.Device.Disk.{DiskStorageConfig}
use vfkit.Config.Device.Gpu
use vfkit.Config.Device.Nbd.{NetworkBlockDevice}
use vfkit.Config.Device.Net.{VirtioNet}
use vfkit.Config.Device.Net
use vfkit.Config.Device.Serial
use vfkit.Config.Device.Vsock
use vfkit.Json.{Json, null, array, elements}
use vfkit.Json.Struct.{unmarshal, type_error}
use vfkit.Marshal.Fields.{
  kind_fields, disk_fields, blk_fields, fs_fields, rosetta_fields, net_fields, NetForMarshalling,
  serial_fields, vsock_fields, input_fields, gpu_fields, nbd_fields,
}

-- The zero values of the structs.
abbrev pub no_disk : DiskStorageConfig
no_disk = record { dev_name = []; read_only = false; image_path = []; type = [] }

abbrev pub no_nbd : NetworkBlockDevice
no_nbd = record {
  storage = record { dev_name = []; read_only = false; uri = [] };
  device_identifier = [];
  timeout = pos 0;
  synchronization_mode = [];
}

-- The magic flag is on unless the JSON says otherwise.
abbrev pub net_start : NetForMarshalling
net_start = record { net = record Net.empty { vfkit_magic = true }; mac_address = [] }

unfoldable pub unmarshal_mac : VirtioNet → Text → Result VirtioNet
unmarshal_mac net text =
    if is_empty text then ok net else (do a ← parse_mac text; ok (record net { mac_address = a }))

-- The magic flag is only of use with a unix socket.
unfoldable pub clear_magic : VirtioNet → VirtioNet
clear_magic net = if is_empty net.unix_socket_path then record net { vfkit_magic = false } else net

-- `unmarshalVirtioNet`
unfoldable pub unmarshal_net : Json → Result VirtioNet
unfolding unmarshal unmarshal_mac clear_magic
unmarshal_net raw = do
  dev ← unmarshal net_fields raw net_start
  net ← unmarshal_mac dev.net dev.mac_address
  ok (clear_magic net)

abbrev pub unknown_kind : Text → Error
unknown_kind kind = errorf "unknown 'kind' field: '%s'" ((codes "{" ++ (kind ++ codes "}")) ∷ [])

-- The `switch` on the kind. A struct with no fields takes any object, and null.
unfoldable pub unmarshal_as : Text → Json → Result VirtioDevice
unfolding is unmarshal unmarshal_net
unmarshal_as kind raw =
    if is kind "virtionet"
    then (do d ← unmarshal_net raw; ok (virtio_net d))
    else if is kind "virtiosock"
    then (do d ← unmarshal vsock_fields raw Vsock.empty; ok (virtio_vsock d))
    else if is kind "virtioblk"
    then (do
      d ← unmarshal blk_fields raw (record { disk = no_disk; device_identifier = [] })
      ok (virtio_blk d))
    else if is kind "nvme"
    then (do d ← unmarshal disk_fields raw no_disk; ok (nvme d))
    else if is kind "virtiofs"
    then (do
      d ← unmarshal fs_fields raw (record { mount_tag = []; shared_dir = [] })
      ok (virtio_fs d))
    else if is kind "rosetta"
    then (do
      d ←
          unmarshal rosetta_fields raw
            (record { mount_tag = []; install_rosetta = false; ignore_if_missing = false })
      ok (rosetta d))
    else if is kind "virtiorng"
    then (do _ ← unmarshal [] raw tt; ok virtio_rng)
    else if is kind "virtioballoon"
    then (do _ ← unmarshal [] raw tt; ok virtio_balloon)
    else if is kind "virtioserial"
    then (do d ← unmarshal serial_fields raw Serial.empty; ok (virtio_serial d))
    else if is kind "virtiogpu"
    then (do d ← unmarshal gpu_fields raw Gpu.empty; ok (virtio_gpu d))
    else if is kind "virtioinput"
    then (do d ← unmarshal input_fields raw (record { input_type = [] }); ok (virtio_input d))
    else if is kind "usbmassstorage"
    then (do d ← unmarshal disk_fields raw no_disk; ok (usb_mass_storage d))
    else if is kind "nbd"
    then (do d ← unmarshal nbd_fields raw no_nbd; ok (nbd d))
    else err (unknown_kind kind)

unfoldable pub unmarshal_device : Json → Result VirtioDevice
unfolding unmarshal unmarshal_as
unmarshal_device raw = do kind ← unmarshal kind_fields raw []; unmarshal_as kind raw

-- `[]*json.RawMessage`: null is an empty list.
abbrev raw_devices : Json → Result (List Json)
raw_devices null = ok []
raw_devices (array l) = ok (elements l)
raw_devices value = err (type_error value)

-- The loop over the raw messages. That of null is a nil pointer, which the loop follows.
unfoldable pub unmarshal_each : List VirtioDevice → List Json → Result (List VirtioDevice)
unfolding unmarshal_device
unmarshal_each devices [] = ok devices
unmarshal_each devices (null ∷ rest) =
    err (panic "invalid memory address or nil pointer dereference")
unmarshal_each devices (msg ∷ rest) = do
  dev ← unmarshal_device msg
  unmarshal_each (devices ++ dev ∷ []) rest

unfoldable pub unmarshal_devices : Json → Result (List VirtioDevice)
unfolding elements unmarshal_each
unmarshal_devices raw = do msgs ← raw_devices raw; unmarshal_each [] msgs
