-- ===== src/Config/Machine.antt =====
-- `VirtualMachine` of pkg/config/config.go. Memory is a number of bytes below 2 ^ 64. A method that
-- changes the machine returns the new one; one that may fail returns it with the error, since a
-- failure leaves what was done before it.
pub mod Memory
pub mod CmdLine
pub mod Devices
pub mod Find
pub mod Accepted
use vfkit.Base.{
  ℕ, ◌+◌, ◌-◌, ◌*◌, ◌/◌, ◌%◌, ◌^◌, Bool, true, false, not, ◌&&◌, Option, some, none, List, [], ◌∷◌,
  ◌++◌, ◌≡◌, ◌==◌, if◌then◌else◌, Error, errorf, Result, ok, err, ◌>>=◌, String,
}
use vfkit.Text.{Text, codes, comma, text_eq, is_empty, split}
use vfkit.Decimal.{format}
use vfkit.Config.Bootloader.{Bootloader}
use vfkit.Config.Bootloader
use vfkit.Config.Device.{
  VirtioDevice, virtio_net, virtio_gpu, virtio_vsock, virtio_input, nbd, device_from_cmd_line,
}
use vfkit.Config.Device
use vfkit.Config.Device.Disk.{FileHeader}
use vfkit.Config.Device.Gpu.{VirtioGpu}
use vfkit.Config.Device.Input.{VirtioInput}
use vfkit.Config.Device.Net.{VirtioNet}
use vfkit.Config.Device.Nbd.{NetworkBlockDevice}
use vfkit.Config.Device.Vsock.{VirtioVsock}
use vfkit.Config.TimeSync.{TimeSync, Ignition, timesync_from_cmd_line, ignition_from_parts}

pub record VirtualMachine : Type 0 where
  pub vcpus : ℕ
  pub memory : ℕ
  pub bootloader : Option Bootloader
  pub devices : List VirtioDevice
  pub timesync : Option TimeSync
  pub ignition : Option Ignition
  pub nested : Bool

-- Package strongunits of go.podman.io/common: `MiB(n).ToBytes()` and `ToMib`.
pub record Units : Type 0 where
  pub mib_to_bytes : ℕ → ℕ
  pub to_mib : ℕ → ℕ

-- A mebibyte is 2 ^ 20 bytes, and what is left over is cut off.
pub record IsUnits (u : Units) : Type 0 where
  pub mib_to_bytes_is : (n : ℕ) → u.mib_to_bytes n ≡ (n * 2 ^ 20) % 2 ^ 64
  pub to_mib_is : (b : ℕ) → u.to_mib b ≡ b / 2 ^ 20

-- `NewVirtualMachine`
abbrev pub new_virtual_machine : Units → ℕ → ℕ → Option Bootloader → VirtualMachine
new_virtual_machine u vcpus memory_mib bootloader = record {
  vcpus = vcpus;
  memory = u.mib_to_bytes memory_mib;
  bootloader = bootloader;
  devices = [];
  timesync = none;
  ignition = none;
  nested = false;
}

-- `roundToMiB`, with the sum taken modulo 2 ^ 64
unfoldable pub round_to_mib : Units → ℕ → ℕ
round_to_mib u value = u.to_mib ((value + u.mib_to_bytes 1 + (2 ^ 64 - 1)) % 2 ^ 64)

-- The loop of `ToCmdLine` over the devices.
unfoldable pub devices_to_cmd_line : List Text → List VirtioDevice → Result (List Text)
devices_to_cmd_line args [] = ok args
devices_to_cmd_line args (dev ∷ devs) = do
  dev_args ← Device.to_cmd_line dev
  devices_to_cmd_line (args ++ dev_args) devs

abbrev pub cpus_args : ℕ → List Text
cpus_args n = if not (n == 0) then codes "--cpus" ∷ format n ∷ [] else []

abbrev pub memory_args : Units → ℕ → List Text
memory_args u m = if not (m == 0) then codes "--memory" ∷ format (round_to_mib u m) ∷ [] else []

abbrev pub ignition_args : Option Ignition → List Text
ignition_args none = []
ignition_args (some i) = codes "--ignition" ∷ i.config_path ∷ []

abbrev pub nested_args : Bool → List Text
nested_args true = codes "--nested" ∷ []
nested_args false = []

abbrev pub bootloader_args : Option Bootloader → Result (List Text)
bootloader_args none = err (errorf "missing bootloader configuration" [])
bootloader_args (some b) = Bootloader.to_cmd_line b

unfoldable pub to_cmd_line : Units → VirtualMachine → Result (List Text)
unfolding devices_to_cmd_line round_to_mib
to_cmd_line u vm = do
  b_args ← bootloader_args vm.bootloader
  args ← devices_to_cmd_line (cpus_args vm.vcpus ++ (memory_args u vm.memory ++ b_args)) vm.devices
  ok (args ++ (ignition_args vm.ignition ++ nested_args vm.nested))

-- The type assertion `dev.(*T)` of `FilterDevices`, for the types that it is used at.
abbrev pub as_gpu : VirtioDevice → Option VirtioGpu
as_gpu (virtio_gpu d) = some d
as_gpu _ = none

abbrev pub as_vsock : VirtioDevice → Option VirtioVsock
as_vsock (virtio_vsock d) = some d
as_vsock _ = none

abbrev pub as_input : VirtioDevice → Option VirtioInput
as_input (virtio_input d) = some d
as_input _ = none

abbrev pub as_net : VirtioDevice → Option VirtioNet
as_net (virtio_net d) = some d
as_net _ = none

abbrev pub as_nbd : VirtioDevice → Option NetworkBlockDevice
as_nbd (nbd d) = some d
as_nbd _ = none

abbrev pub keep {ℓ} : {A : Type ℓ} → Option A → List A → List A
keep none as' = as'
keep (some a) as' = a ∷ as'

unfoldable pub filter_devices :
    {A : Type 0} → (VirtioDevice → Option A) → List VirtioDevice → List A
filter_devices is_v [] = []
filter_devices is_v (dev ∷ devs) = keep (is_v dev) (filter_devices is_v devs)

abbrev socket_of : Option VirtioNet → Option ℕ
socket_of none = none
socket_of (some net) = net.socket

-- `extraFiles`: the sockets, by file descriptor
unfoldable pub extra_files : List VirtioDevice → List ℕ
extra_files [] = []
extra_files (dev ∷ devs) = keep (socket_of (as_net dev)) (extra_files devs)

-- What `Cmd` sets of an `exec.Cmd`.
pub record ExecCmd : Type 0 where
  pub path : Text
  pub args : List Text
  pub files : List ℕ

unfoldable pub cmd : Units → VirtualMachine → Text → Result ExecCmd
unfolding to_cmd_line extra_files
cmd u vm vfkit_path = do
  args ← to_cmd_line u vm
  ok (record { path = vfkit_path; args = args; files = extra_files vm.devices })

abbrev id_is : Text → Option NetworkBlockDevice → Bool
id_is id none = false
id_is id (some d) = text_eq d.device_identifier id

-- The method `NetworkBlockDevice`
unfoldable pub network_block_device : Text → List VirtioDevice → Option NetworkBlockDevice
network_block_device id [] = none
network_block_device id (dev ∷ devs) =
    if id_is id (as_nbd dev) then as_nbd dev else network_block_device id devs

-- `AddDevices`
abbrev pub add_devices : VirtualMachine → List VirtioDevice → VirtualMachine
add_devices vm devs = record vm { devices = vm.devices ++ devs }

abbrev pub Outcome : Type 0
Outcome = VirtualMachine × Option Error

module _ (file : Text → FileHeader) where
  -- The devices before the first bad one stay in the machine.
  unfoldable pub add_devices_from_cmd_line : VirtualMachine → List Text → Outcome
  add_devices_from_cmd_line vm [] = (vm, none)
  add_devices_from_cmd_line vm (opts ∷ rest) = elim (device_from_cmd_line file opts) [
    | err e ↦ (vm, some e)
    | ok dev ↦ add_devices_from_cmd_line (add_devices vm (dev ∷ [])) rest
  ]

unfoldable pub add_timesync_from_cmd_line : VirtualMachine → Text → Outcome
unfolding timesync_from_cmd_line
add_timesync_from_cmd_line vm [] = (vm, none)
add_timesync_from_cmd_line vm (c ∷ s) = elim (timesync_from_cmd_line (c ∷ s)) [
  | err e ↦ (vm, some e)
  | ok ts ↦ (record vm { timesync = some ts }, none)
]

unfoldable pub add_ignition_file_from_cmd_line : VirtualMachine → Text → Outcome
unfolding ignition_from_parts
add_ignition_file_from_cmd_line vm [] = (vm, none)
add_ignition_file_from_cmd_line vm (c ∷ s) = elim (ignition_from_parts (split comma (c ∷ s))) [
  | err e ↦ (vm, some e)
  | ok i ↦ (record vm { ignition = some i }, none)
]
