-- ===== src/Tests/Device.antt =====
-- Devices from command lines. The host has one raw image, `/disk.img`, and one qcow2 image.
use vfkit.Base.{
  true, false, none, [], ◌∷◌, ◌≡◌, refl, arith, ok, err, errorf, inl, inr, if◌then◌else◌,
}
use vfkit.Base.Int.{pos}
use vfkit.Text.{Text, codes, text_eq, split}
use vfkit.Decimal.{parse_signed}
use vfkit.Mac.{parse_mac}
use vfkit.Config.Options.{strv_to_options}
use vfkit.Config.Device.{VirtioDevice, virtio_blk, virtio_net, virtio_gpu, device_from_cmd_line}
use vfkit.Config.Device.Disk.{FileHeader, cannot_open, header, qcow2_header, blk_from_options}
use vfkit.Config.Device.Net.{VirtioNet}
use vfkit.Config.Device.Net
use vfkit.Config.Device.Gpu
use vfkit.Config.Device.Accepted.{IsAccepted, device_from_cmd_line-IsAccepted}
use vfkit.Config.Device.RoundTrip.{ReadsAs, device-ReadsAs}

host : Text → FileHeader
unfolding codes text_eq
host path =
    if text_eq path (codes "/disk.img")
    then header (0 ∷ 0 ∷ 0 ∷ 0 ∷ [])
    else if text_eq path (codes "/disk.qcow2")
    then header qcow2_header
    else cannot_open (codes "no such file or directory")

read_blk :
    device_from_cmd_line host (codes "virtio-blk,path=/disk.img,deviceId=root")
    ≡ ok (
        virtio_blk (record {
          disk = record {
            dev_name = codes "virtio-blk";
            read_only = false;
            image_path = codes "/disk.img";
            type = [];
          };
          device_identifier = codes "root";
        }))
unfolding host codes device_from_cmd_line split strv_to_options blk_from_options
read_blk = refl

read_qcow2 :
    device_from_cmd_line host (codes "virtio-blk,path=/disk.qcow2")
    ≡ err (errorf "vfkit does not support qcow2 image format" [])
unfolding host codes device_from_cmd_line split strv_to_options blk_from_options
read_qcow2 = refl

read_unknown :
    device_from_cmd_line host (codes "floppy")
    ≡ err (errorf "unknown device type: %s" (codes "floppy" ∷ []))
unfolding codes device_from_cmd_line split
read_unknown = refl

read_gpu :
    device_from_cmd_line host (codes "virtio-gpu,width=1920,height=1080")
    ≡ ok (virtio_gpu (record { uses_gui = false; width = pos 1920; height = pos 1080 }))
unfolding codes device_from_cmd_line split strv_to_options Gpu.from_options parse_signed
read_gpu = refl

read_net :
    device_from_cmd_line host (codes "virtio-net,nat,mac=52:54:00:70:2b:71")
    ≡ ok (
        virtio_net (record {
          nat = true;
          mac_address = 0x52 ∷ 0x54 ∷ 0 ∷ 0x70 ∷ 0x2b ∷ 0x71 ∷ [];
          socket = none;
          unix_socket_path = [];
          vfkit_magic = false;
        }))
unfolding codes device_from_cmd_line split strv_to_options Net.from_options parse_mac
read_net = refl

abbrev net : VirtioNet
net = record {
  nat = false;
  mac_address = 0x52 ∷ 0x54 ∷ 0 ∷ 0x70 ∷ 0x2b ∷ 0x71 ∷ [];
  socket = none;
  unix_socket_path = codes "/tmp/net.sock";
  vfkit_magic = false;
}

-- A network device over a unix socket, with a MAC address.
device-ReadsAs_example : ReadsAs host (virtio_net net) (virtio_net net)
unfolding codes Net.validate
device-ReadsAs_example = device-ReadsAs host (virtio_net net) (record {
  valid = refl;
  path_part = omega arith;
  mac_is = inr (omega arith, inl (omega arith));
  fd_fits = tt;
})

abbrev root_disk : VirtioDevice
root_disk = virtio_blk (record {
  disk = record {
    dev_name = codes "virtio-blk";
    read_only = false;
    image_path = codes "/disk.img";
    type = [];
  };
  device_identifier = codes "root";
})

device_from_cmd_line-IsAccepted_example : IsAccepted host root_disk
device_from_cmd_line-IsAccepted_example =
    device_from_cmd_line-IsAccepted host (codes "virtio-blk,path=/disk.img,deviceId=root") root_disk
      read_blk
