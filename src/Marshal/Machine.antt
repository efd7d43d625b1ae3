-- ===== src/Marshal/Machine.antt =====
-- The virtual machine as JSON: what encoding/json writes of it, and its `UnmarshalJSON` in
-- pkg/config/json.go. That ranges over a map, whose entries come in any order, so the loop takes
-- the list of the entries in the order that they come in.
pub mod Order
use vfkit.Base.{
  Bool, true, false, not, ◌||◌, Option, none, some, List, [], ◌∷◌, ◌++◌, if◌then◌else◌, Error,
  Result, ok, err, ◌>>=◌, for_each,
}
use vfkit.Text.{Text, is, codes, text_eq}
use vfkit.Config.Bootloader.{Bootloader}
use vfkit.Config.Device.{VirtioDevice}
use vfkit.Config.TimeSync.{TimeSync, Ignition}
use vfkit.Config.Machine.{VirtualMachine}
use vfkit.Json.{Json, null, boolean, number, array, object, Member, members, to_fields, to_elements}
use vfkit.Json.Members.{member, unsigned, unless, flag_if_set}
use vfkit.Json.Struct.{unmarshal, read_uint, type_error}
use vfkit.Marshal.Devices.{marshal_device}
use vfkit.Marshal.ReadDevices.{unmarshal_devices}
use vfkit.Marshal.Bootloaders.{
  marshal_bootloader, unmarshal_bootloader, marshal_ignition, unmarshal_ignition,
}
use vfkit.Marshal.Fields.{timesync_fields}

abbrev pub bootloader_value : Option Bootloader → Json
bootloader_value none = null
bootloader_value (some b) = marshal_bootloader b

unfoldable pub marshal_devices : List VirtioDevice → List Json
unfolding marshal_device
marshal_devices [] = []
marshal_devices (d ∷ ds) = marshal_device d ∷ marshal_devices ds

abbrev pub marshal_timesync : TimeSync → Json
marshal_timesync ts = object (to_fields (member "vsockPort" (unsigned ts.vsock_port) ∷ []))

abbrev pub timesync_value : Option TimeSync → Json
timesync_value none = null
timesync_value (some ts) = marshal_timesync ts

abbrev pub ignition_value : Option Ignition → Json
ignition_value none = null
ignition_value (some i) = marshal_ignition i

abbrev pub is_nil : {A : Type 0} → List A → Bool
is_nil [] = true
is_nil (_ ∷ _) = false

abbrev pub is_none : {A : Type 0} → Option A → Bool
is_none none = true
is_none (some _) = false

-- The members of the machine's object.
unfoldable pub machine_members : VirtualMachine → List Member
unfolding marshal_bootloader marshal_devices to_elements to_fields marshal_ignition
machine_members vm =
    member "vcpus" (unsigned vm.vcpus)
      ∷ member "memoryBytes" (unsigned vm.memory)
      ∷ member "bootloader" (bootloader_value vm.bootloader)
      ∷ unless (is_nil vm.devices)
          (member "devices" (array (to_elements (marshal_devices vm.devices))))
    ++ (unless (is_none vm.timesync) (member "timesync" (timesync_value vm.timesync))
        ++ (unless (is_none vm.ignition) (member "ignition" (ignition_value vm.ignition))
            ++ flag_if_set "nested" vm.nested))

unfoldable pub marshal_machine : VirtualMachine → Json
unfolding machine_members to_fields
marshal_machine vm = object (to_fields (machine_members vm))

-- The fields of `UnmarshalJSON`: the cases of its `switch`, and no case.
pub data MachineField : Type 0 where
  vcpus : MachineField
  memory_bytes : MachineField
  bootloader : MachineField
  timesync : MachineField
  devices : MachineField
  ignition : MachineField
  other : MachineField

unfoldable pub machine_field : Text → MachineField
unfolding is
machine_field idx =
    if is idx "vcpus"
    then vcpus
    else if is idx "memoryBytes"
    then memory_bytes
    else if is idx "bootloader"
    then bootloader
    else if is idx "timesync"
    then timesync
    else if is idx "devices"
    then devices
    else if is idx "ignition"
    then ignition
    else other

abbrev pub or_type_error {ℓ} : {A : Type ℓ} → Json → Option A → Result A
or_type_error raw none = err (type_error raw)
or_type_error raw (some a) = ok a

-- A nil pointer is set to a zero value first.
abbrev pub timesync_or_zero : Option TimeSync → TimeSync
timesync_or_zero none = record { vsock_port = 0 }
timesync_or_zero (some ts) = ts

-- The error of an ignition is a variable of its own and is lost.
abbrev pub ignition_or : Option Ignition → Result Ignition → Option Ignition
ignition_or old (err e) = old
ignition_or old (ok i) = some i

unfoldable pub unmarshal_field : MachineField → Json → VirtualMachine → Result VirtualMachine
unfolding unmarshal_bootloader unmarshal unmarshal_devices unmarshal_ignition
unmarshal_field vcpus raw vm = do
  n ← or_type_error raw (read_uint 64 raw)
  ok (record vm { vcpus = n })
unmarshal_field memory_bytes raw vm = do
  n ← or_type_error raw (read_uint 64 raw)
  ok (record vm { memory = n })
unmarshal_field bootloader raw vm = do
  b ← unmarshal_bootloader raw
  ok (record vm { bootloader = some b })
unmarshal_field timesync raw vm = do
  ts ← unmarshal timesync_fields raw (timesync_or_zero vm.timesync)
  ok (record vm { timesync = some ts })
unmarshal_field devices raw vm = do ds ← unmarshal_devices raw; ok (record vm { devices = ds })
unmarshal_field ignition raw vm =
    ok (record vm { ignition = ignition_or vm.ignition (unmarshal_ignition raw) })
unmarshal_field other raw vm = ok vm

-- The body of the loop; null is a nil pointer, which is skipped.
unfoldable pub unmarshal_entry : VirtualMachine → Member → Result VirtualMachine
unfolding machine_field unmarshal_field
unmarshal_entry vm (idx, null) = ok vm
unmarshal_entry vm (idx, raw) = unmarshal_field (machine_field idx) raw vm

unfoldable pub unmarshal_entries : VirtualMachine → List Member → Result VirtualMachine
unfolding for_each unmarshal_entry
unmarshal_entries vm input = for_each unmarshal_entry vm input

unfoldable pub has_key : Text → List Member → Bool
unfolding text_eq
has_key key [] = false
has_key key (m ∷ ms) = text_eq key m.0 || has_key key ms

-- The map of an object's members: of two with one key, the last one stays.
unfoldable pub entries : List Member → List Member
unfolding has_key
entries [] = []
entries (m ∷ ms) = let rest = entries ms in if has_key m.0 ms then rest else m ∷ rest

unfoldable pub input_map : Json → Result (List Member)
unfolding entries members
input_map null = ok []
input_map (object l) = ok (entries (members l))
input_map value = err (type_error value)

-- `UnmarshalJSON` with the order in which the runtime lists the map.
unfoldable pub unmarshal_machine :
    (List Member → List Member) → Json → VirtualMachine → Result VirtualMachine
unfolding input_map unmarshal_entries
unmarshal_machine order raw vm = do input ← input_map raw; unmarshal_entries vm (order input)
