-- ===== src/Config/Machine/Find.antt =====
-- Devices of a machine by their type: `extraFiles` and the method `NetworkBlockDevice`.
use vfkit.Base.{ℕ, Option, some, none, List, [], ◌∷◌, ◌≡◌, ◌≢◌, ◌⊎◌, inl, inr, refl, ap, Bool-cases}
use vfkit.Text.{Text, text_eq, text_eq_iff}
use vfkit.Config.Device.{VirtioDevice, rosetta, virtio_net, nbd}
use vfkit.Config.Device.Nbd.{NetworkBlockDevice}
use vfkit.Config.Device.Net.{VirtioNet}
use vfkit.Config.Machine.{as_net, as_nbd, keep, filter_devices, extra_files, network_block_device}

abbrev pub sockets : List VirtioNet → List ℕ
sockets [] = []
sockets (net ∷ nets) = keep net.socket (sockets nets)

-- `extraFiles` has the socket of each network device that has one, in the order of the devices.
pub extra_files-filter_devices :
    (devs : List VirtioDevice) → extra_files devs ≡ sockets (filter_devices as_net devs)
unfolding extra_files filter_devices
extra_files-filter_devices [] = refl
extra_files-filter_devices (virtio_net d ∷ devs) =
    ap (keep d.socket) (extra_files-filter_devices devs)
extra_files-filter_devices (rosetta d ∷ devs) = extra_files-filter_devices devs
extra_files-filter_devices (_ ∷ devs) = extra_files-filter_devices devs

-- No network block device of the list has the identifier.
abbrev pub NoneHas : Text → List NetworkBlockDevice → Type 0
NoneHas id [] = Unit
NoneHas id (d ∷ ds) = (d.device_identifier ≢ id) × NoneHas id ds

-- `d` is the first network block device of the list with the identifier.
abbrev pub IsFirst : Text → NetworkBlockDevice → List NetworkBlockDevice → Type 0
IsFirst id d [] = ⊥
IsFirst id d (e ∷ ds) =
    ((e ≡ d) × (d.device_identifier ≡ id)) ⊎ ((e.device_identifier ≢ id) × IsFirst id d ds)

abbrev Found : Text → Option NetworkBlockDevice → List NetworkBlockDevice → Type 0
Found id none ds = NoneHas id ds
Found id (some d) ds = IsFirst id d ds

Found-behind :
    (id : Text) (e : NetworkBlockDevice)
    → e.device_identifier ≢ id
    → (o : Option NetworkBlockDevice) (ds : List NetworkBlockDevice) → Found id o ds
    → Found id o (e ∷ ds)
Found-behind id e ne none ds f = (ne, f)
Found-behind id e ne (some d) ds f = inr (ne, f)

network_block_device_cons :
    (id : Text) (d : NetworkBlockDevice) (devs : List VirtioDevice)
    → Found id (network_block_device id devs) (filter_devices as_nbd devs)
    → Found id (network_block_device id (nbd d ∷ devs)) (filter_devices as_nbd (nbd d ∷ devs))
unfolding network_block_device filter_devices
network_block_device_cons id d devs ih = elim (Bool-cases (text_eq d.device_identifier id)) [
  | inl e ↦ rw e (inl (refl, (text_eq_iff d.device_identifier id).0 e))
  | inr e ↦ rw e (Found-behind id d (λ p. cc ((text_eq_iff d.device_identifier id).1 p)) _ _ ih)
]

-- The device that is found by an identifier is the first network block device with it; none is
-- found exactly if there is none.
pub network_block_device-Found :
    (id : Text) (devs : List VirtioDevice)
    → Found id (network_block_device id devs) (filter_devices as_nbd devs)
unfolding network_block_device filter_devices
network_block_device-Found id [] = tt
network_block_device-Found id (nbd d ∷ devs) =
    network_block_device_cons id d devs (network_block_device-Found id devs)
network_block_device-Found id (rosetta d ∷ devs) = network_block_device-Found id devs
network_block_device-Found id (_ ∷ devs) = network_block_device-Found id devs
