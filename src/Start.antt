-- ===== src/Start.antt =====
-- cmd/vfkit/main.go: the machine from the options, and the wait for a state of the machine. What
-- the host and the framework do is a parameter. `newVMConfiguration` also appends the cloud-init
-- image to the devices of the options, which nothing reads later.
pub mod CloudInit
pub mod Iso
pub mod Configured
pub mod Devices
mod Steps
pub mod Wait
pub mod Shutdown
pub mod Run
pub mod Finished
use CloudInit.{ConfigFiles, generate_cloud_init_image}
use Iso.{IsoWriter, iso_name}
use vfkit.Base.{
  ℕ, Bool, true, false, not, ◌&&◌, Option, some, none, List, [], ◌∷◌, ◌++◌, if◌then◌else◌, Error,
  errorf, wrapf, Result, ok, err, ◌>>=◌, ◌>>◌, fail_if, String,
}
use vfkit.Text.{Text, codes, is_empty}
use vfkit.Cmdline.{StringSliceValue, get_slice, is_nil}
use vfkit.Config.Bootloader.{Bootloader, linux, new_linux_bootloader, bootloader_from_cmd_line}
use vfkit.Config.Device.{VirtioDevice, virtio_gpu, virtio_input}
use vfkit.Config.Device.Disk.{FileHeader}
use vfkit.Config.Device.Gpu.{gpu_new}
use vfkit.Config.Device.Input.{input_new}
use vfkit.Config.Machine.{
  VirtualMachine, Units, Outcome, new_virtual_machine, add_devices, add_devices_from_cmd_line,
  add_timesync_from_cmd_line, add_ignition_file_from_cmd_line, filter_devices, as_gpu, as_input,
}

-- `Options` of pkg/cmdline/cmdline.go
pub record Options : Type 0 where
  pub vcpus : ℕ
  pub memory_mib : ℕ
  pub vmlinuz_path : Text
  pub kernel_cmdline : Text
  pub initrd_path : Text
  pub bootloader : StringSliceValue
  pub timesync : Text
  pub devices : List Text
  pub restful_uri : Text
  pub log_level : Text
  pub use_gui : Bool
  pub ignition_path : Text
  pub cloud_init_files : StringSliceValue
  pub nested : Bool
  pub pid_file : Text

-- The host: its image files as they are when devices are read, its other files, the writer of ISO
-- images, the writer of the pid file (`os.Executable` included), and whether it has nested
-- virtualization.
pub record Host : Type 0 where
  pub file : Text → FileHeader
  pub open_file : Text → Result (Unit {0})
  pub iso : IsoWriter
  pub write_pid_file : Text → Result (Unit {0})
  pub nested_supported : Bool

unfoldable pub new_legacy_bootloader : Options → Option Bootloader
new_legacy_bootloader opts =
    if is_empty opts.vmlinuz_path && is_empty opts.kernel_cmdline && is_empty opts.initrd_path
    then none
    else some (linux (new_linux_bootloader opts.vmlinuz_path opts.kernel_cmdline opts.initrd_path))

abbrev pub legacy_or : Option Bootloader → Result Bootloader → Result Bootloader
legacy_or none other = other
legacy_or (some b) other = ok b

unfoldable pub new_bootloader_configuration : Options → Result Bootloader
unfolding new_legacy_bootloader
new_bootloader_configuration opts =
    legacy_or (new_legacy_bootloader opts) (bootloader_from_cmd_line (get_slice opts.bootloader))

-- `if err := ...; err != nil { return nil, err }`
abbrev pub returned : Outcome → Result VirtualMachine
returned (vm, none) = ok vm
returned (vm, some e) = err e

abbrev pub returned_as : String → Outcome → Result VirtualMachine
returned_as format (vm, none) = ok vm
returned_as format (vm, some e) = err (wrapf format e)

-- The device arguments with the cloud-init image, if there is one.
abbrev pub with_image : Text → List Text → List Text
with_image iso devices =
    if is_empty iso then devices else devices ++ (codes "virtio-blk,path=" ++ iso) ∷ []

-- The GPU and the keyboard that a window needs, where there are none.
unfoldable pub add_gpu : VirtualMachine → VirtualMachine
unfolding filter_devices
add_gpu vm =
    if is_nil (filter_devices as_gpu vm.devices)
    then add_devices vm (virtio_gpu (record gpu_new { uses_gui = true }) ∷ [])
    else vm

unfoldable pub add_input : VirtualMachine → Result VirtualMachine
unfolding filter_devices input_new
add_input vm =
    if is_nil (filter_devices as_input vm.devices)
    then (do dev ← input_new (codes "keyboard"); ok (add_devices vm (virtio_input dev ∷ [])))
    else ok vm

abbrev pub with_gui : Bool → VirtualMachine → Result VirtualMachine
with_gui false vm = ok vm
with_gui true vm = add_input (add_gpu vm)

abbrev pub write_pid : (Text → Result (Unit {0})) → Text → Result (Unit {0})
write_pid write [] = ok tt
write_pid write (c ∷ path) = write (c ∷ path)

module _ (u : Units) (host : Host) where
  unfoldable pub new_vm_configuration : Options → Result VirtualMachine
  unfolding new_bootloader_configuration generate_cloud_init_image add_gpu add_input
      add_timesync_from_cmd_line add_devices_from_cmd_line add_ignition_file_from_cmd_line
  new_vm_configuration opts = do
    bootloader ← new_bootloader_configuration opts
    let vm = new_virtual_machine u opts.vcpus opts.memory_mib (some bootloader)
    fail_if (opts.nested && not host.nested_supported)
        (errorf "nested virtualization is not supported" [])
    vm1 ← returned (add_timesync_from_cmd_line (record vm { nested = opts.nested }) opts.timesync)
    iso ←
        generate_cloud_init_image host.open_file (iso_name host.iso)
          (get_slice opts.cloud_init_files)
    write_pid host.write_pid_file opts.pid_file
    vm2 ← returned (add_devices_from_cmd_line host.file vm1 (with_image iso opts.devices))
    vm3 ← with_gui opts.use_gui vm2
    returned_as "failed to add ignition file: %w"
        (add_ignition_file_from_cmd_line vm3 opts.ignition_path)
