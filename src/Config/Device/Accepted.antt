-- ===== src/Config/Device/Accepted.antt =====
-- What holds of every device that `deviceFromCmdLine` accepts: the checks of `FromOptions`.
mod Console
mod Attached
mod Disk
use Console.{OneConsole, IsDimension, serial_accepted, gpu_accepted, input_accepted}
use Attached.{OneNetwork, IsSyncMode, net_accepted, vsock_accepted, nbd_accepted}
use Disk.{IsRaw, disk_accepted, blk_accepted}
use vfkit.Base.{
  if◌then◌else◌, subst, ℕ, zero, suc, ◌<◌, ◌^◌, Bool, true, false, Option, none, some, List, [],
  ◌∷◌, ◌≡◌, ◌≢◌, ◌⊎◌, inl, inr, refl, arith, ok, err, Result, ◌>>=◌, ◌>>◌, for_each, for_each_inv,
  >>=-eq-ok, checked-eq-ok, String, Result-cases, Bool-cases, Bool-cases,
}
use vfkit.Base.Int.{ℤ, pos, negsuc}
use vfkit.Text.{split, comma, Text, codes, is, is_empty, text_eq, text_eq_iff}
use vfkit.Config.Options.{CmdOption}
use vfkit.Config.Device.Serial.{VirtioSerial}
use vfkit.Config.Device.Net.{VirtioNet}
use vfkit.Config.Device.Gpu.{VirtioGpu}
use vfkit.Config.Device.Input.{VirtioInput}
use vfkit.Config.Device.Vsock.{VirtioVsock}
use vfkit.Config.Device.Vsock
use vfkit.Config.Device.Disk.{
  DiskStorageConfig, VirtioBlk, FileHeader, header, cannot_open, cannot_read, qcow2_header,
  is_valid_type, check_header,
}
use vfkit.Config.Device.Nbd.{NetworkBlockDevice, NbdParse}
use vfkit.Config.Device.{
  VirtioDevice, rosetta, nvme, virtio_blk, virtio_fs, virtio_net, virtio_rng, virtio_serial,
  virtio_vsock, usb_mass_storage, virtio_input, virtio_gpu, virtio_balloon, nbd, from_options,
  new_device, device_from_cmd_line, configure, device_from_parts,
}
use vfkit.Decimal.{parse_digits}
use vfkit.Decimal.Range.{parse_digits-bound}

-- What the options of a device must establish.
abbrev pub IsAccepted : (Text → FileHeader) → VirtioDevice → Type 0
IsAccepted file (nvme d) = is_valid_type d.type ≡ true
IsAccepted file (usb_mass_storage d) = is_valid_type d.type ≡ true
IsAccepted file (virtio_blk d) = (is_valid_type d.disk.type ≡ true) × IsRaw (file d.disk.image_path)
IsAccepted file (virtio_net d) = OneNetwork d.nat d.socket d.unix_socket_path
IsAccepted file (virtio_serial d) = OneConsole d.log_file d.uses_stdio d.uses_pty
IsAccepted file (virtio_vsock d) = d.port < 2 ^ 32
IsAccepted file (virtio_input d) =
    (d.input_type ≡ codes "pointing") ⊎ (d.input_type ≡ codes "keyboard")
IsAccepted file (virtio_gpu d) = IsDimension d.width × IsDimension d.height
IsAccepted file (nbd d) = IsSyncMode d.synchronization_mode
IsAccepted file _ = Unit

-- What the options rely on.
abbrev IsFresh : VirtioDevice → Type 0
IsFresh (nvme d) = is_valid_type d.type ≡ true
IsFresh (usb_mass_storage d) = is_valid_type d.type ≡ true
IsFresh (virtio_blk d) = is_valid_type d.disk.type ≡ true
IsFresh (virtio_vsock d) = d.port < 2 ^ 32
IsFresh (nbd d) = IsSyncMode d.synchronization_mode
IsFresh _ = Unit

abbrev AllFresh : Option VirtioDevice → Type 0
AllFresh none = Unit
AllFresh (some d) = IsFresh d

record Fresh (o : Option VirtioDevice) : Type 0 where
  holds : AllFresh o

choose : (b : Bool) (x y : Option VirtioDevice) → AllFresh x → Fresh y → Fresh (if b then x else y)
choose true x y f g = record { holds = f }
choose false x y f g = g

vsock_fresh : AllFresh (some (virtio_vsock Vsock.empty))
vsock_fresh = omega arith

new_device-Fresh : (name : Text) → Fresh (new_device name)
unfolding new_device is_valid_type
new_device-Fresh name = choose (is name "rosetta") _ _ tt (
    choose (is name "nvme") _ _ refl (
      choose (is name "virtio-blk") _ _ refl (
        choose (is name "virtio-fs") _ _ tt (
          choose (is name "virtio-net") _ _ tt (
            choose (is name "virtio-rng") _ _ tt (
              choose (is name "virtio-serial") _ _ tt (
                choose (is name "virtio-vsock") _ _ vsock_fresh (
                  choose (is name "usb-mass-storage") _ _ refl (
                    choose (is name "virtio-input") _ _ tt (
                      choose (is name "virtio-gpu") _ _ tt (
                        choose (is name "virtio-balloon") _ _ tt
                          (choose (is name "nbd") _ _ (inl refl) (record { holds = tt })))))))))))))

wrapped {ℓ} :
    {A : Type ℓ} (P : VirtioDevice → Type 0) (m : Result A) (wrap : A → VirtioDevice)
    (r : VirtioDevice)
    → (m >>= λ x. ok (wrap x)) ≡ ok r
    → ((x : A) → m ≡ ok x → P (wrap x))
    → P r
wrapped P m wrap r e each =
    let (x, made, same) = >>=-eq-ok m (λ x. ok (wrap x)) e in
    let r_is : wrap x ≡ r = cc in subst P r_is (each x made)

module _ (file : Text → FileHeader) where
  from_options-IsAccepted :
      (d : VirtioDevice) (os : List CmdOption) (r : VirtioDevice)
      → IsFresh d
      → from_options file d os ≡ ok r
      → IsAccepted file r
  unfolding from_options
  from_options-IsAccepted (rosetta d) os r h e = wrapped (IsAccepted file) _ rosetta r e (λ _ _. tt)
  from_options-IsAccepted (nvme d) os r h e =
      wrapped (IsAccepted file) _ nvme r e (λ x m. disk_accepted d os x h m)
  from_options-IsAccepted (virtio_blk d) os r h e =
      wrapped (IsAccepted file) _ virtio_blk r e (λ x m. blk_accepted file d os x h m)
  from_options-IsAccepted (virtio_fs d) os r h e =
      wrapped (IsAccepted file) _ virtio_fs r e (λ _ _. tt)
  from_options-IsAccepted (virtio_net d) os r h e =
      wrapped (IsAccepted file) _ virtio_net r e (λ x m. net_accepted d os x m)
  from_options-IsAccepted virtio_rng os r h e =
      wrapped (IsAccepted file) _ (λ _. virtio_rng) r e (λ _ _. tt)
  from_options-IsAccepted (virtio_serial d) os r h e =
      wrapped (IsAccepted file) _ virtio_serial r e (λ x m. serial_accepted d os x m)
  from_options-IsAccepted (virtio_vsock d) os r h e =
      wrapped (IsAccepted file) _ virtio_vsock r e (λ x m. vsock_accepted d os x h m)
  from_options-IsAccepted (usb_mass_storage d) os r h e =
      wrapped (IsAccepted file) _ usb_mass_storage r e (λ x m. disk_accepted d os x h m)
  from_options-IsAccepted (virtio_input d) os r h e =
      wrapped (IsAccepted file) _ virtio_input r e (λ x m. input_accepted d os x m)
  from_options-IsAccepted (virtio_gpu d) os r h e =
      wrapped (IsAccepted file) _ virtio_gpu r e (λ x m. gpu_accepted d os x m)
  from_options-IsAccepted virtio_balloon os r h e =
      wrapped (IsAccepted file) _ (λ _. virtio_balloon) r e (λ _ _. tt)
  from_options-IsAccepted (nbd d) os r h e =
      wrapped (IsAccepted file) _ nbd r e (λ x m. nbd_accepted d os x h m)

  configure-IsAccepted :
      (name : Text) (o : Option VirtioDevice) (opts : List Text) (r : VirtioDevice)
      → AllFresh o
      → configure file name o opts ≡ ok r
      → IsAccepted file r
  configure-IsAccepted name none opts r h e = cc
  configure-IsAccepted name (some d) opts r h e = from_options-IsAccepted d _ r h e

  parts-IsAccepted :
      (parts : List Text) (r : VirtioDevice)
      → device_from_parts file parts ≡ ok r
      → IsAccepted file r
  parts-IsAccepted [] r e = cc
  parts-IsAccepted (name ∷ opts) r e =
      configure-IsAccepted name (new_device name) opts r (new_device-Fresh name).holds e

  -- A device that is read from a command line has passed the checks of its type: a serial device has
  -- exactly one console, a network device exactly one attachment, a GPU a resolution of at least
  -- 1x1, an input device one of the two types, a vsock device a port below 2 ^ 32, a disk a known
  -- type, a virtio-blk device a readable image that is not qcow2, and a network block device one of
  -- the two synchronization modes.
  pub device_from_cmd_line-IsAccepted :
      (s : Text) (d : VirtioDevice) → device_from_cmd_line file s ≡ ok d → IsAccepted file d
  unfolding device_from_cmd_line
  device_from_cmd_line-IsAccepted s d e = parts-IsAccepted (split comma s) d e
