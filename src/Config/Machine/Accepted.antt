-- ===== src/Config/Machine/Accepted.antt =====
-- The invariant of a machine that is built from command lines: each device has passed its checks.
use vfkit.Base.{List, [], ◌∷◌, inl, inr, All, All-append, Result-cases}
use vfkit.Text.{Text}
use vfkit.Config.Device.{device_from_cmd_line}
use vfkit.Config.Device.Accepted.{IsAccepted, device_from_cmd_line-IsAccepted}
use vfkit.Config.Device.Disk.{FileHeader}
use vfkit.Config.Machine.{VirtualMachine, add_devices, add_devices_from_cmd_line}

-- If every device of a machine has passed the checks of its type, then so has every device after
-- any list of command lines is added, whether they are all good or not.
pub add_devices_from_cmd_line-AllAccepted :
    (file : Text → FileHeader) (vm : VirtualMachine) (opts : List Text)
    → All (IsAccepted file) vm.devices
    → All (IsAccepted file) (add_devices_from_cmd_line file vm opts).0.devices
unfolding add_devices_from_cmd_line
add_devices_from_cmd_line-AllAccepted file vm [] h = h
add_devices_from_cmd_line-AllAccepted file vm (s ∷ opts) h =
    elim (Result-cases (device_from_cmd_line file s)) [
      | inl (d, e) ↦
          rw (e, add_devices_from_cmd_line)
            (add_devices_from_cmd_line-AllAccepted file (add_devices vm (d ∷ [])) opts (
              All-append (IsAccepted file) vm.devices (d ∷ []) h
                (device_from_cmd_line-IsAccepted file s d e, tt)))
      | inr (x, e) ↦ rw (e, add_devices_from_cmd_line) h
    ]
