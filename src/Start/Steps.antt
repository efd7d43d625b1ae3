-- ===== src/Start/Steps.antt =====
-- The operations of `newVMConfiguration` that succeed, each with what it changes.
use vfkit.Base.{Option, some, none, List, [], ◌∷◌, ◌≡◌, inl, inr, Error, ok, Result-cases, String}
use vfkit.Text.{Text, split, comma}
use vfkit.Config.Device.{VirtioDevice}
use vfkit.Config.Device.Disk.{FileHeader}
use vfkit.Config.Machine.{
  VirtualMachine, Outcome, add_devices, add_devices_from_cmd_line, add_timesync_from_cmd_line,
  add_ignition_file_from_cmd_line,
}
use vfkit.Config.Machine.Devices.{ReadAll, add_devices_from_cmd_line-cases}
use vfkit.Config.TimeSync.{TimeSync, Ignition, timesync_from_cmd_line, ignition_from_parts}
use vfkit.Start.{returned, returned_as}

outcome_ok : (o : Outcome) (vm r : VirtualMachine) → o ≡ (vm, none) → returned o ≡ ok r → vm ≡ r
outcome_ok (w, none) vm r p e = cc
outcome_ok (w, some x) vm r p e = cc

outcome_err :
    (o : Outcome) (vm r : VirtualMachine) (x : Error) → o ≡ (vm, some x) → returned o ≡ ok r → ⊥
outcome_err (w, none) vm r x p e = cc
outcome_err (w, some y) vm r x p e = cc

pub returned_as-ok :
    (format : String) (o : Outcome) (r : VirtualMachine)
    → returned_as format o ≡ ok r
    → returned o ≡ ok r
returned_as-ok format (vm, none) r e = e
returned_as-ok format (vm, some x) r e = cc

pub returned_timesync :
    (vm : VirtualMachine) (s : Text) (r : VirtualMachine)
    → returned (add_timesync_from_cmd_line vm s) ≡ ok r
    → (ts : Option TimeSync) × (record vm { timesync = ts } ≡ r)
unfolding add_timesync_from_cmd_line
returned_timesync vm [] r e = (vm.timesync, cc)
returned_timesync vm (c ∷ s) r e = elim (Result-cases (timesync_from_cmd_line (c ∷ s))) [
  | inl (ts, q) ↦ (some ts, outcome_ok _ _ r (rw (q, add_timesync_from_cmd_line)) e)
  | inr (x, q) ↦ absurd (outcome_err _ vm r x (rw (q, add_timesync_from_cmd_line)) e)
]

pub returned_ignition :
    (vm : VirtualMachine) (s : Text) (r : VirtualMachine)
    → returned (add_ignition_file_from_cmd_line vm s) ≡ ok r
    → (i : Option Ignition) × (record vm { ignition = i } ≡ r)
unfolding add_ignition_file_from_cmd_line
returned_ignition vm [] r e = (vm.ignition, cc)
returned_ignition vm (c ∷ s) r e = elim (Result-cases (ignition_from_parts (split comma (c ∷ s)))) [
  | inl (i, q) ↦ (some i, outcome_ok _ _ r (rw (q, add_ignition_file_from_cmd_line)) e)
  | inr (x, q) ↦ absurd (outcome_err _ vm r x (rw (q, add_ignition_file_from_cmd_line)) e)
]

pub returned_devices :
    (file : Text → FileHeader) (vm : VirtualMachine) (opts : List Text) (r : VirtualMachine)
    → returned (add_devices_from_cmd_line file vm opts) ≡ ok r
    → (devs : List VirtioDevice) × ReadAll file opts devs × (add_devices vm devs ≡ r)
returned_devices file vm opts r e = elim (add_devices_from_cmd_line-cases file vm opts) [
  | inl (devs, read, q) ↦ (devs, read, outcome_ok _ _ r q e)
  | inr (f, q) ↦ absurd (outcome_err _ _ r f.error q e)
]
