-- ===== src/Config/Machine/CmdLine.antt =====
-- The command line of a whole machine.
use vfkit.Base.{none, List, ◌++◌, ◌≡◌, ok, All, append_assoc}
use mathlib.Core.List.{map}
use vfkit.Text.{Text}
use vfkit.Config.Device.Disk.{FileHeader}
use vfkit.Config.Device.RoundTrip.{IsPrintable, canonical}
use vfkit.Config.Machine.{
  VirtualMachine, Units, cpus_args, memory_args, ignition_args, nested_args, to_cmd_line,
  bootloader_args, add_devices, add_devices_from_cmd_line,
}
use vfkit.Config.Machine.Devices.{device_flags, devices_to_cmd_line-ReadAll, added_all}

-- A machine whose bootloader has arguments and whose devices are all printable has a command line:
-- the CPUs and the memory if they are not 0, the bootloader, `--device` and a value for each device
-- in order, the ignition file and the nested flag if they are set. The values of the devices, added
-- to any machine, give it the same devices, up to what a command line does not carry.
pub machine_round_trip :
    (u : Units) (file : Text → FileHeader) (vm target : VirtualMachine) (b_args : List Text)
    → bootloader_args vm.bootloader ≡ ok b_args
    → All (IsPrintable file) vm.devices
    → (values : List Text) × (to_cmd_line u vm
        ≡ ok (
            cpus_args vm.vcpus
            ++ (memory_args u vm.memory
                ++ (b_args
                    ++ (device_flags values
                        ++ (ignition_args vm.ignition ++ nested_args vm.nested))))))
      × (add_devices_from_cmd_line file target values
          ≡ (add_devices target (map canonical vm.devices), none))
unfolding to_cmd_line
machine_round_trip u file vm target b_args hb hd =
    let (values, w, r) =
      devices_to_cmd_line-ReadAll file (cpus_args vm.vcpus ++ (memory_args u vm.memory ++ b_args))
        vm.devices hd in
    (
      values,
      rw (hb, w) (simp append_assoc),
      added_all file target values (map canonical vm.devices) r,
    )
