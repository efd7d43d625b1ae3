-- ===== src/Config/Device/RoundTrip.antt =====
-- `ToCmdLine` and `deviceFromCmdLine` together: one child for each group of devices, and the
-- interface.
mod Parts
pub mod Console
pub mod Disk
pub mod Nbd
mod NbdWritten
pub mod Net
pub mod Share
pub mod Vsock
pub use Parts.{IsPart, IsPart-append, ReadsAs}
use Console.{IsSerial, IsInput, IsGpu, serial-ReadsAs, input-ReadsAs, gpu-ReadsAs}
use Disk.{IsDisk, IsBlk, nvme-ReadsAs, usb-ReadsAs, blk-ReadsAs}
use Nbd.{IsNbd, nbd_canonical, nbd-ReadsAs}
use Net.{IsNet, net_canonical, net-ReadsAs}
use Share.{IsFs, IsRosetta, fs-ReadsAs, rosetta-ReadsAs, rng-ReadsAs, balloon-ReadsAs}
use Vsock.{IsVsock, vsock-ReadsAs}
use vfkit.Base.{false, []}
use vfkit.Text.{Text}
use vfkit.Config.Device.{
  VirtioDevice, rosetta, nvme, virtio_blk, virtio_fs, virtio_net, virtio_rng, virtio_serial,
  virtio_vsock, usb_mass_storage, virtio_input, virtio_gpu, virtio_balloon, nbd,
}
use vfkit.Config.Device.Disk.{FileHeader}

-- A device that a command line can hold: its mandatory values are set, no text has a comma, and its
-- numbers are in range.
abbrev pub IsPrintable : (Text → FileHeader) → VirtioDevice → Type 0
IsPrintable file (rosetta d) = IsRosetta d
IsPrintable file (nvme d) = IsDisk "nvme" d
IsPrintable file (virtio_blk d) = IsBlk file d
IsPrintable file (virtio_fs d) = IsFs d
IsPrintable file (virtio_net d) = IsNet d
IsPrintable file virtio_rng = Unit
IsPrintable file (virtio_serial d) = IsSerial d
IsPrintable file (virtio_vsock d) = IsVsock d
IsPrintable file (usb_mass_storage d) = IsDisk "usb-mass-storage" d
IsPrintable file (virtio_input d) = IsInput d
IsPrintable file (virtio_gpu d) = IsGpu d
IsPrintable file virtio_balloon = Unit
IsPrintable file (nbd d) = IsNbd d

-- What the command line does not carry is gone.
abbrev pub canonical : VirtioDevice → VirtioDevice
canonical (virtio_serial d) = virtio_serial (record d { pty_name = [] })
canonical (virtio_net d) = virtio_net (net_canonical d)
canonical (virtio_gpu d) = virtio_gpu (record d { uses_gui = false })
canonical (nbd d) = nbd (nbd_canonical d)
canonical d = d

-- Every printable device has a command line, `--device` and one value, and `deviceFromCmdLine`
-- reads that value as the device without what a command line does not carry: the name of a pty,
-- the magic flag of a network device with no unix socket, whether a GPU has a window, and of a
-- network block device a part of a timeout below a millisecond, a timeout that is not positive and
-- an unknown mode. The file of a virtio-blk device must be readable and no qcow2 image.
pub device-ReadsAs :
    (file : Text → FileHeader) (d : VirtioDevice)
    → IsPrintable file d
    → ReadsAs file d (canonical d)
device-ReadsAs file (rosetta d) v = rosetta-ReadsAs file d v
device-ReadsAs file (nvme d) v = nvme-ReadsAs file d v
device-ReadsAs file (virtio_blk d) v = blk-ReadsAs file d v
device-ReadsAs file (virtio_fs d) v = fs-ReadsAs file d v
device-ReadsAs file (virtio_net d) v = net-ReadsAs file d v
device-ReadsAs file virtio_rng v = rng-ReadsAs file
device-ReadsAs file (virtio_serial d) v = serial-ReadsAs file d v
device-ReadsAs file (virtio_vsock d) v = vsock-ReadsAs file d v
device-ReadsAs file (usb_mass_storage d) v = usb-ReadsAs file d v
device-ReadsAs file (virtio_input d) v = input-ReadsAs file d v
device-ReadsAs file (virtio_gpu d) v = gpu-ReadsAs file d v
device-ReadsAs file virtio_balloon v = balloon-ReadsAs file
device-ReadsAs file (nbd d) v = nbd-ReadsAs file d v
