-- ===== src/Marshal/RoundTrip.antt =====
-- What `MarshalJSON` writes, the readers of pkg/config/json.go read back: one child for each group
-- of devices, one for the machine.
pub mod Kind
pub mod Disk
pub mod Nbd
pub mod Share
pub mod Console
pub mod Net
pub mod Bootloaders
pub mod Devices
pub mod Entries
pub mod Machine
use vfkit.Config.Device.{
  VirtioDevice, rosetta, nvme, virtio_blk, virtio_fs, virtio_net, virtio_rng, virtio_serial,
  virtio_vsock, usb_mass_storage, virtio_input, virtio_gpu, virtio_balloon, nbd,
}
use Kind.{ReadsBack}
use Disk.{IsDisk, IsBlk, nvme-ReadsBack, usb-ReadsBack, blk-ReadsBack}
use Nbd.{IsNbd, nbd-ReadsBack}
use Net.{IsNet, net_canonical, net-ReadsBack}
use Share.{
  IsFs, IsRosetta, IsVsock, fs-ReadsBack, rosetta-ReadsBack, vsock-ReadsBack, rng-ReadsBack,
  balloon-ReadsBack,
}
use Console.{IsSerial, IsInput, IsGpu, serial-ReadsBack, input-ReadsBack, gpu-ReadsBack}

-- Every text is valid UTF-8, the numbers fit their types, and a hardware address is nil or one that
-- `ParseMAC` returns.
abbrev pub IsWritable : VirtioDevice → Type 0
IsWritable (rosetta d) = IsRosetta d
IsWritable (nvme d) = IsDisk d
IsWritable (virtio_blk d) = IsBlk d
IsWritable (virtio_fs d) = IsFs d
IsWritable (virtio_net d) = IsNet d
IsWritable virtio_rng = Unit
IsWritable (virtio_serial d) = IsSerial d
IsWritable (virtio_vsock d) = IsVsock d
IsWritable (usb_mass_storage d) = IsDisk d
IsWritable (virtio_input d) = IsInput d
IsWritable (virtio_gpu d) = IsGpu d
IsWritable virtio_balloon = Unit
IsWritable (nbd d) = IsNbd d

-- What JSON makes of a device.
abbrev pub json_canonical : VirtioDevice → VirtioDevice
json_canonical (virtio_net d) = virtio_net (net_canonical d)
json_canonical d = d

-- `unmarshalDevice` reads what `MarshalJSON` writes of a device whose texts are valid UTF-8, whose
-- numbers fit their types and whose hardware address is nil or parsed. It is the device again, but
-- for a network device: its magic flag is on exactly if it has a unix socket, and a file has lost
-- its descriptor.
pub device-ReadsBack : (d : VirtioDevice) → IsWritable d → ReadsBack d (json_canonical d)
device-ReadsBack (rosetta d) h = rosetta-ReadsBack d h
device-ReadsBack (nvme d) h = nvme-ReadsBack d h
device-ReadsBack (virtio_blk d) h = blk-ReadsBack d h
device-ReadsBack (virtio_fs d) h = fs-ReadsBack d h
device-ReadsBack (virtio_net d) h = net-ReadsBack d h
device-ReadsBack virtio_rng h = rng-ReadsBack
device-ReadsBack (virtio_serial d) h = serial-ReadsBack d h
device-ReadsBack (virtio_vsock d) h = vsock-ReadsBack d h
device-ReadsBack (usb_mass_storage d) h = usb-ReadsBack d h
device-ReadsBack (virtio_input d) h = input-ReadsBack d h
device-ReadsBack (virtio_gpu d) h = gpu-ReadsBack d h
device-ReadsBack virtio_balloon h = balloon-ReadsBack
device-ReadsBack (nbd d) h = nbd-ReadsBack d h
