-- ===== src/Marshal/RoundTrip/Machine.antt =====
-- The machine: what encoding/json writes of it, and `UnmarshalJSON` on that.
use mathlib.Core.List.{Permᴰ}
use vfkit.Base.{
  ◌<◌, ◌^◌, ◌≡◌, refl, sym, ap, ◌∙◌, List, [], ◌∷◌, ◌++◌, Option, none, some, ok, for_each, Bool,
  true, false, arith, All,
}
use vfkit.Text.{codes, text_eq}
use vfkit.Config.Device.{VirtioDevice}
use vfkit.Config.TimeSync.{TimeSync, Ignition}
use vfkit.Config.Machine.{VirtualMachine}
use vfkit.Json.{Json, array, Member, to_elements, members-to_fields}
use vfkit.Json.Members.{member, unsigned, unless, flag_if_set}
use vfkit.Marshal.Machine.{
  marshal_devices, machine_members, marshal_machine, unmarshal_entry, unmarshal_entries, has_key,
  entries, unmarshal_machine, bootloader_value, timesync_value, ignition_value, is_nil, is_none,
  input_map,
}
use vfkit.Marshal.Machine.Order.{IsMap, unmarshal_entries-perm}
use vfkit.Marshal.RoundTrip.{IsWritable}
use vfkit.Marshal.RoundTrip.Devices.{json_devices}
use vfkit.Marshal.RoundTrip.Entries.{
  read-entry, read-unless, vcpus-entry, memory-entry, IsLoadable, bootloader-entry, devices-entry,
  IsSynced, timesync-entry, IsIgnited, json_ignition, ignition-entry,
}

entries-eq : (l : List Member) → IsMap l → entries l ≡ l
unfolding entries
entries-eq [] h = refl
entries-eq (m ∷ l) (h, t) = rw h (ap (λ r. m ∷ r) (entries-eq l t))

-- The names of the machine's fields are different.
named-IsMap :
    (n m b ds ts i : Json) (no_ds no_ts no_i nested : Bool)
    → IsMap (
        member "vcpus" n
          ∷ member "memoryBytes" m
          ∷ member "bootloader" b
          ∷ unless no_ds (member "devices" ds)
        ++ (unless no_ts (member "timesync" ts)
            ++ (unless no_i (member "ignition" i) ++ flag_if_set "nested" nested)))
unfolding has_key unless codes text_eq
named-IsMap n m b ds ts i no_ds no_ts no_i nested = ground arith

-- The numbers fit their types, the texts are valid UTF-8, and the bootloader is no macOS one.
pub record IsWritableMachine (vm : VirtualMachine) : Type 0 where
  pub vcpus_range : vm.vcpus < 2 ^ 64
  pub memory_range : vm.memory < 2 ^ 64
  pub loadable : IsLoadable vm.bootloader
  pub devices_writable : All IsWritable vm.devices
  pub synced : IsSynced vm.timesync
  pub ignited : IsIgnited vm.ignition

abbrev pub no_machine : VirtualMachine
no_machine = record {
  vcpus = 0;
  memory = 0;
  bootloader = none;
  devices = [];
  timesync = none;
  ignition = none;
  nested = false;
}

-- What JSON makes of a machine.
abbrev pub json_machine : VirtualMachine → VirtualMachine
json_machine vm = record vm {
  devices = json_devices vm.devices;
  ignition = json_ignition vm.ignition;
  nested = false;
}

no-devices : (ds : List VirtioDevice) → is_nil ds ≡ true → json_devices ds ≡ []
no-devices [] e = refl
no-devices (d ∷ ds) e = cc

no-timesync : (ts : Option TimeSync) → is_none ts ≡ true → ts ≡ none
no-timesync none e = refl
no-timesync (some ts) e = cc

no-ignition : (i : Option Ignition) → is_none i ≡ true → json_ignition i ≡ none
no-ignition none e = refl
no-ignition (some i) e = cc

-- There is no case for `nested`.
nested-entry : (b : Bool) (s : VirtualMachine) → unmarshal_entries s (flag_if_set "nested" b) ≡ ok s
unfolding unmarshal_entries unless codes for_each unmarshal_entry
nested-entry true s = refl
nested-entry false s = refl

unmarshal_entries-machine_members :
    (vm : VirtualMachine)
    → IsWritableMachine vm
    → unmarshal_entries no_machine (machine_members vm) ≡ ok (json_machine vm)
unfolding machine_members
unmarshal_entries-machine_members vm h =
    let with_cpus : VirtualMachine = record no_machine { vcpus = vm.vcpus } in
    let with_memory : VirtualMachine = record with_cpus { memory = vm.memory } in
    let booted : VirtualMachine = record with_memory { bootloader = vm.bootloader } in
    let equipped : VirtualMachine = record booted { devices = json_devices vm.devices } in
    let synced : VirtualMachine = record equipped { timesync = vm.timesync } in
    read-entry _ _ no_machine with_cpus (vcpus-entry vm.vcpus no_machine h.vcpus_range)
    ∙ (read-entry _ _ with_cpus with_memory (memory-entry vm.memory with_cpus h.memory_range)
        ∙ (read-entry _ _ with_memory booted (bootloader-entry vm.bootloader with_memory h.loadable)
            ∙ (read-unless (is_nil vm.devices) _ _ booted equipped
                  (λ e. ap (λ ds. record booted { devices = ds }) (sym (no-devices vm.devices e)))
                  (λ e. devices-entry vm.devices booted h.devices_writable)
                ∙ (read-unless (is_none vm.timesync) _ _ equipped synced
                      (λ e.
                        ap (λ t. record equipped { timesync = t })
                          (sym (no-timesync vm.timesync e)))
                      (timesync-entry vm.timesync equipped h.synced)
                    ∙ (read-unless (is_none vm.ignition) _ _ synced (json_machine vm)
                          (λ e.
                            ap (λ i. record synced { ignition = i })
                              (sym (no-ignition vm.ignition e)))
                          (ignition-entry vm.ignition synced h.ignited)
                        ∙ nested-entry vm.nested (json_machine vm))))))

machine_members-IsMap : (vm : VirtualMachine) → IsMap (machine_members vm)
unfolding machine_members
machine_members-IsMap vm =
    named-IsMap (unsigned vm.vcpus) (unsigned vm.memory) (bootloader_value vm.bootloader)
      (array (to_elements (marshal_devices vm.devices))) (timesync_value vm.timesync)
      (ignition_value vm.ignition) (is_nil vm.devices) (is_none vm.timesync) (is_none vm.ignition)
      vm.nested

-- A machine whose numbers fit their types, whose texts are valid UTF-8 and that has no macOS
-- bootloader is written as an object that `UnmarshalJSON` reads back, whichever way the runtime
-- lists the map of its members. What is read is the machine without nested virtualization and
-- without the port of its ignition, with a network device's magic flag on exactly if it has a unix
-- socket, and with no descriptor in its files.
pub unmarshal_machine-marshal_machine :
    (order : List Member → List Member) (vm : VirtualMachine)
    → ((l : List Member) → Permᴰ l (order l))
    → IsWritableMachine vm
    → unmarshal_machine order (marshal_machine vm) no_machine ≡ ok (json_machine vm)
unfolding unmarshal_machine marshal_machine input_map
unmarshal_machine-marshal_machine order vm p h =
    let ms = machine_members vm in
    let is_map = machine_members-IsMap vm in
    ap (λ l. unmarshal_entries no_machine (order (entries l))) (members-to_fields ms)
    ∙ (ap (λ l. unmarshal_entries no_machine (order l)) (entries-eq ms is_map)
        ∙ (unmarshal_entries-perm no_machine (p ms) is_map (json_machine vm)).0
            (unmarshal_entries-machine_members vm h))
