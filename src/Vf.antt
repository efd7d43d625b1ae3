-- ===== src/Vf.antt =====
-- pkg/vf/virtio.go and pkg/vf/vm.go: the devices of a machine, turned into those of the
-- virtualization framework. The framework and the host are a parameter: each field makes a native
-- object or fails. A device is returned as it is changed: a pty gets a name, a network a socket.
pub mod Storage
pub mod Sockets
pub mod Counts
pub mod Proxies
pub mod Kernel
pub mod Create
pub mod Created
pub mod Rosetta
pub mod Graphics
use Graphics.{GraphicsMaker, gpu_to_vz}
use Rosetta.{RosettaMaker, rosetta_share}
use Storage.{nvme_storage, blk_storage, usb_storage, nbd_storage}
use vfkit.Base.{
  ℕ, Bool, true, false, not, ◌==◌, Option, some, none, List, [], ◌∷◌, ◌++◌, if◌then◌else◌, Error,
  errorf, Result, ok, err, ◌>>=◌, ◌>>◌, fail_if, String,
}
use vfkit.Base.Int.{ℤ}
use vfkit.Text.{Text, codes, is, is_empty, text_eq}
use vfkit.Text.Path.{base}
use vfkit.Cmdline.{is_nil}
use vfkit.Config.Device.{
  VirtioDevice, rosetta, nvme, virtio_blk, virtio_fs, virtio_net, virtio_rng, virtio_serial,
  virtio_vsock, usb_mass_storage, virtio_input, virtio_gpu, virtio_balloon, nbd,
}
use vfkit.Config.Device.Disk.{DiskStorageConfig, VirtioBlk, is_valid_type}
use vfkit.Config.Device.Gpu.{VirtioGpu}
use vfkit.Config.Device.Nbd.{NetworkBlockDevice}
use vfkit.Config.Device.Net.{VirtioNet}
use vfkit.Config.Device.Serial.{VirtioSerial}
use vfkit.Config.Device.Share.{VirtioFs, RosettaShare}
use vfkit.Config.Machine.{VirtualMachine}
use vfkit.Config.TimeSync.{TimeSync, Ignition}
use vfkit.Vf.Storage.{StorageMaker}

-- Beside storage, rosetta and GPUs, which `PlatformType` decides on: a shared directory with its
-- tag, an input device, a network with its connection to a unix socket, serial ports, a pty with
-- its name, and the rest.
pub record Framework (Native : Type 0) : Type 0 where
  pub storage : StorageMaker Native
  pub rosetta : RosettaMaker Native
  pub shared_directory : Text → Text → Result Native
  pub platform_type : Text
  pub graphics : GraphicsMaker Native
  pub pointing : Result Native
  pub keyboard : Result Native
  pub connect : VirtioNet → Result VirtioNet
  pub network : VirtioNet → Result Native
  pub entropy : Result Native
  pub balloon : Result Native
  pub stdio_port : Result Native
  pub file_port : Text → Result Native
  pub pty_port : Result (Native × Text)
  pub socket_device : Result Native

-- `VirtualMachineConfiguration`; the framework holds the balloons itself.
pub record VmConfiguration (Native : Type 0) : Type 0 where
  pub storage : List Native
  pub sharing : List Native
  pub keyboards : List Native
  pub pointing : List Native
  pub graphics : List Native
  pub networks : List Native
  pub entropy : List Native
  pub serial_ports : List Native
  pub sockets : List Native
  pub console_ports : List Native
  pub balloons : List Native

abbrev pub empty_configuration : {Native : Type 0} → VmConfiguration Native
empty_configuration = record {
  storage = [];
  sharing = [];
  keyboards = [];
  pointing = [];
  graphics = [];
  networks = [];
  entropy = [];
  serial_ports = [];
  sockets = [];
  console_ports = [];
  balloons = [];
}

-- The ports of time synchronisation and ignition, which need a vsock device if they are set.
abbrev pub timesync_port : Option TimeSync → ℕ
timesync_port none = 0
timesync_port (some ts) = ts.vsock_port

abbrev pub ignition_port : Option Ignition → ℕ
ignition_port none = 0
ignition_port (some i) = i.vsock_port

module _ {Native : Type 0} (fw : Framework Native) where
  unfoldable pub add_fs : VirtioFs → VmConfiguration Native → Result (VmConfiguration Native)
  add_fs dev c = do
    fail_if (is_empty dev.shared_dir)
        (errorf "missing mandatory 'sharedDir' option for virtio-fs device" [])
    n ←
        fw.shared_directory (if is_empty dev.mount_tag then base dev.shared_dir else dev.mount_tag)
          dev.shared_dir
    ok (record c { sharing = c.sharing ++ n ∷ [] })

  unfoldable pub add_serial :
      VirtioSerial → VmConfiguration Native → Result (VmConfiguration Native × VirtioSerial)
  add_serial dev c = do
    fail_if (not (is_empty dev.pty_name))
        (errorf "VirtioSerial.PtyName must be empty (current value: %s)" (dev.pty_name ∷ []))
    if dev.uses_pty
        then (do
          port ← fw.pty_port
          ok (
            record c { console_ports = c.console_ports ++ port.0 ∷ [] },
            record dev { pty_name = port.1 },
          ))
        else (do
          n ← if dev.uses_stdio then fw.stdio_port else fw.file_port dev.log_file
          ok (record c { serial_ports = c.serial_ports ++ n ∷ [] }, dev))

  -- A second vsock device is not added.
  unfoldable pub add_vsock : VmConfiguration Native → Result (VmConfiguration Native)
  add_vsock c =
      if not (is_nil c.sockets)
      then ok c
      else (do n ← fw.socket_device; ok (record c { sockets = c.sockets ++ n ∷ [] }))

  unfoldable pub add_net :
      VirtioNet → VmConfiguration Native → Result (VmConfiguration Native × VirtioNet)
  add_net dev c = do
    dev' ← if is_empty dev.unix_socket_path then ok dev else fw.connect dev
    n ← fw.network dev'
    ok (record c { networks = c.networks ++ n ∷ [] }, dev')

  unfoldable pub add_input : Text → VmConfiguration Native → Result (VmConfiguration Native)
  unfolding is
  add_input input_type c =
      if is input_type "pointing"
      then (do n ← fw.pointing; ok (record c { pointing = c.pointing ++ n ∷ [] }))
      else (do n ← fw.keyboard; ok (record c { keyboards = c.keyboards ++ n ∷ [] }))

  -- A device that is added is returned with the configuration.
  abbrev pub unchanged :
      VirtioDevice
      → Result (VmConfiguration Native)
      → Result (VmConfiguration Native × VirtioDevice)
  unchanged dev r = do c ← r; ok (c, dev)

  abbrev pub add_storage : Result Native → VmConfiguration Native → Result (VmConfiguration Native)
  add_storage r c = do n ← r; ok (record c { storage = c.storage ++ n ∷ [] })

  unfoldable pub add_to_virtual_machine_config :
      VirtioDevice → VmConfiguration Native → Result (VmConfiguration Native × VirtioDevice)
  unfolding add_fs add_serial add_vsock add_net add_input rosetta_share gpu_to_vz nvme_storage
      blk_storage usb_storage nbd_storage
  add_to_virtual_machine_config (usb_mass_storage d) c =
      unchanged (usb_mass_storage d) (add_storage (usb_storage fw.storage d) c)
  add_to_virtual_machine_config (virtio_blk d) c =
      unchanged (virtio_blk d) (add_storage (blk_storage fw.storage d) c)
  add_to_virtual_machine_config (rosetta d) c =
      unchanged (rosetta d)
        (do n ← rosetta_share fw.rosetta d; ok (record c { sharing = c.sharing ++ n ∷ [] }))
  add_to_virtual_machine_config (nvme d) c =
      unchanged (nvme d) (add_storage (nvme_storage fw.storage d) c)
  add_to_virtual_machine_config (virtio_fs d) c = unchanged (virtio_fs d) (add_fs d c)
  add_to_virtual_machine_config (virtio_net d) c = do r ← add_net d c; ok (r.0, virtio_net r.1)
  add_to_virtual_machine_config virtio_rng c =
      unchanged virtio_rng (do n ← fw.entropy; ok (record c { entropy = c.entropy ++ n ∷ [] }))
  add_to_virtual_machine_config (virtio_serial d) c = do
    r ← add_serial d c
    ok (r.0, virtio_serial r.1)
  add_to_virtual_machine_config (virtio_vsock d) c = unchanged (virtio_vsock d) (add_vsock c)
  add_to_virtual_machine_config (virtio_input d) c =
      unchanged (virtio_input d) (add_input d.input_type c)
  add_to_virtual_machine_config (virtio_gpu d) c = unchanged (virtio_gpu d) (do
    n ← gpu_to_vz fw.graphics fw.platform_type d
    ok (record c { graphics = c.graphics ++ n ∷ [] }))
  add_to_virtual_machine_config virtio_balloon c =
      unchanged virtio_balloon (do n ← fw.balloon; ok (record c { balloons = n ∷ [] }))
  add_to_virtual_machine_config (nbd d) c =
      unchanged (nbd d) (add_storage (nbd_storage fw.storage d) c)

  -- The loop of `toVz` over the devices.
  unfoldable pub add_all :
      List VirtioDevice
      → VmConfiguration Native
      → Result (VmConfiguration Native × List VirtioDevice)
  unfolding add_to_virtual_machine_config
  add_all [] c = ok (c, [])
  add_all (dev ∷ devs) c = do
    r ← add_to_virtual_machine_config dev c
    rs ← add_all devs r.0
    ok (rs.0, r.1 ∷ rs.1)

  -- The vsock device for a port that is set.
  abbrev pub add_vsock_for : ℕ → VmConfiguration Native → Result (VmConfiguration Native)
  add_vsock_for port c = if port == 0 then ok c else add_vsock c

  -- `toVz`, up to the calls that give the lists to the framework
  unfoldable pub to_vz : VirtualMachine → Result (VmConfiguration Native × VirtualMachine)
  unfolding add_all
  to_vz vm = do
    r ← add_all vm.devices empty_configuration
    c1 ← add_vsock_for (timesync_port vm.timesync) r.0
    c2 ← add_vsock_for (ignition_port vm.ignition) c1
    ok (c2, record vm { devices = r.1 })
