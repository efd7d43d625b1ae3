-- ===== src/Marshal/Kinds.antt =====
-- What the readers of pkg/config/json.go make of the kind, of null and of the name `nested`.
use vfkit.Base.{
  String, ◌≡◌, refl, ap, ◌∙◌, List, [], ◌∷◌, ◌++◌, All, ok, err, ◌>>=◌, >>=-eq-ok, panic,
  for_each_inv, Result, Gives, Gives-ok, Gives-bind, if◌then◌else◌, Bool-cases, inl, inr,
}
use vfkit.Text.{Text, codes, is, text_eq_iff}
use vfkit.Config.Device.{
  VirtioDevice, rosetta, nvme, virtio_blk, virtio_fs, virtio_net, virtio_rng, virtio_serial,
  virtio_vsock, usb_mass_storage, virtio_input, virtio_gpu, virtio_balloon, nbd,
}
use vfkit.Config.Machine.{VirtualMachine}
use vfkit.Json.{Json, null, array, Member, to_elements, elements-to_elements}
use vfkit.Json.Struct.{unmarshal}
use vfkit.Marshal.Fields.{kind_fields}
use vfkit.Marshal.ReadDevices.{unmarshal_device, unmarshal_as, unmarshal_each, unmarshal_devices}
use vfkit.Marshal.Machine.{
  marshal_devices, MachineField, vcpus, memory_bytes, bootloader, timesync, devices, ignition,
  other, unmarshal_field, unmarshal_entry, unmarshal_entries, unmarshal_machine, machine_field,
  input_map,
}
use vfkit.Marshal.RoundTrip.{IsWritable}
use vfkit.Marshal.RoundTrip.Devices.{unmarshal_each-readable}

-- The kind of a device.
abbrev pub kind_of : VirtioDevice → String
kind_of (rosetta d) = "rosetta"
kind_of (nvme d) = "nvme"
kind_of (virtio_blk d) = "virtioblk"
kind_of (virtio_fs d) = "virtiofs"
kind_of (virtio_net d) = "virtionet"
kind_of virtio_rng = "virtiorng"
kind_of (virtio_serial d) = "virtioserial"
kind_of (virtio_vsock d) = "virtiosock"
kind_of (usb_mass_storage d) = "usbmassstorage"
kind_of (virtio_input d) = "virtioinput"
kind_of (virtio_gpu d) = "virtiogpu"
kind_of virtio_balloon = "virtioballoon"
kind_of (nbd d) = "nbd"

abbrev HasKind : Text → VirtioDevice → Type 0
HasKind kind d = kind ≡ codes (kind_of d)

-- One case of the `switch`.
case-HasKind :
    {A : Type 0} (kind : Text) (k : String) (r : Result A) (device : A → VirtioDevice)
    (rest : Result VirtioDevice)
    → ((a : A) → codes k ≡ codes (kind_of (device a)))
    → Gives (HasKind kind) rest
    → Gives (HasKind kind) (if is kind k then (r >>= λ a. ok (device a)) else rest)
case-HasKind kind k r device rest h behind = elim (Bool-cases (is kind k)) [
  | inl e ↦ rw e (
      Gives-bind (HasKind kind) r (λ a. ok (device a))
        (λ a.
          Gives-ok (HasKind kind) (device a) (unfold is in (text_eq_iff kind (codes k)).0 e ∙ h a)))
  | inr e ↦ rw e behind
]

unmarshal_as-kind : (kind : Text) (raw : Json) → Gives (HasKind kind) (unmarshal_as kind raw)
unfolding unmarshal_as
unmarshal_as-kind kind raw =
    case-HasKind kind "virtionet" _ virtio_net _ (λ a. refl)
      (case-HasKind kind "virtiosock" _ virtio_vsock _ (λ a. refl)
        (case-HasKind kind "virtioblk" _ virtio_blk _ (λ a. refl)
          (case-HasKind kind "nvme" _ nvme _ (λ a. refl)
            (case-HasKind kind "virtiofs" _ virtio_fs _ (λ a. refl)
              (case-HasKind kind "rosetta" _ rosetta _ (λ a. refl)
                (case-HasKind kind "virtiorng" _ (λ _. virtio_rng) _ (λ a. refl)
                  (case-HasKind kind "virtioballoon" _ (λ _. virtio_balloon) _ (λ a. refl)
                    (case-HasKind kind "virtioserial" _ virtio_serial _ (λ a. refl)
                      (case-HasKind kind "virtiogpu" _ virtio_gpu _ (λ a. refl)
                        (case-HasKind kind "virtioinput" _ virtio_input _ (λ a. refl)
                          (case-HasKind kind "usbmassstorage" _ usb_mass_storage _ (λ a. refl)
                            (case-HasKind kind "nbd" _ nbd _ (λ a. refl) (λ d e. cc)))))))))))))

-- A value that is read as a device has the kind of that device.
pub unmarshal_device-kind :
    (raw : Json) (d : VirtioDevice)
    → unmarshal_device raw ≡ ok d
    → unmarshal kind_fields raw [] ≡ ok (codes (kind_of d))
unfolding unmarshal_device
unmarshal_device-kind raw d e =
    let (kind, made, rest) = >>=-eq-ok (unmarshal kind_fields raw []) (λ k. unmarshal_as k raw) e in
    made ∙ ap ok (unmarshal_as-kind kind raw d rest)

module _ (vm : VirtualMachine) where
  abbrev Keeps : VirtualMachine → Type 0
  Keeps vm' = vm'.nested ≡ vm.nested

  field-Keeps :
      (f : MachineField) (raw : Json) (s : VirtualMachine)
      → Keeps s
      → Gives Keeps (unmarshal_field f raw s)
  unfolding unmarshal_field
  field-Keeps vcpus raw s h = Gives-bind Keeps _ _ (λ v. Gives-ok Keeps _ h)
  field-Keeps memory_bytes raw s h = Gives-bind Keeps _ _ (λ v. Gives-ok Keeps _ h)
  field-Keeps bootloader raw s h = Gives-bind Keeps _ _ (λ v. Gives-ok Keeps _ h)
  field-Keeps timesync raw s h = Gives-bind Keeps _ _ (λ v. Gives-ok Keeps _ h)
  field-Keeps devices raw s h = Gives-bind Keeps _ _ (λ v. Gives-ok Keeps _ h)
  field-Keeps ignition raw s h = Gives-ok Keeps _ h
  field-Keeps other raw s h = Gives-ok Keeps s h

  entry-Keeps : (s : VirtualMachine) (m : Member) → Keeps s → Gives Keeps (unmarshal_entry s m)
  unfolding unmarshal_entry
  entry-Keeps s (idx, null) h = Gives-ok Keeps s h
  entry-Keeps s (idx, raw) h = field-Keeps (machine_field idx) raw s h

-- Whatever the value says of nested virtualization, `UnmarshalJSON` leaves it as it was.
pub unmarshal_machine-nested :
    (order : List Member → List Member) (raw : Json) (vm vm' : VirtualMachine)
    → unmarshal_machine order raw vm ≡ ok vm'
    → vm'.nested ≡ vm.nested
unfolding unmarshal_machine unmarshal_entries
unmarshal_machine-nested order raw vm vm' e =
    let (l, made, rest) = >>=-eq-ok (input_map raw) (λ l. unmarshal_entries vm (order l)) e in
    for_each_inv (Keeps vm) unmarshal_entry (λ s m t h q. entry-Keeps vm s m h t q) vm (order l) vm'
      refl rest

-- In a list of devices, null behind good devices ends the program.
pub unmarshal_devices-null :
    (ds : List VirtioDevice) (rest : List Json)
    → All IsWritable ds
    → unmarshal_devices (array (to_elements (marshal_devices ds ++ null ∷ rest)))
      ≡ err (panic "invalid memory address or nil pointer dereference")
unfolding unmarshal_devices
unmarshal_devices-null ds rest h =
    ap (unmarshal_each []) (elements-to_elements (marshal_devices ds ++ null ∷ rest))
    ∙ (unmarshal_each-readable [] ds (null ∷ rest) h ∙ unfold unmarshal_each in refl)
