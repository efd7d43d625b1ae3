-- ===== src/Tests/Start.antt =====
-- Machines from options, on a host whose only image is `/disk.img`.
use vfkit.Base.{
  ◌*◌, ◌/◌, ◌%◌, ◌^◌, true, false, some, none, List, [], ◌∷◌, ◌≡◌, ◌≢◌, ◌⊎◌, refl, ok, err, errorf,
  All,
}
use vfkit.Text.{codes, split}
use vfkit.Config.Bootloader.{linux}
use vfkit.Config.Device.{virtio_rng, virtio_gpu, virtio_input, device_from_cmd_line}
use vfkit.Config.Device.Accepted.{IsAccepted}
use vfkit.Config.Device.Disk.{cannot_open}
use vfkit.Config.Device.Gpu.{gpu_new}
use vfkit.Config.Device.Input.{input_new}
use vfkit.Config.Device.Share.{no_options}
use vfkit.Config.Machine.{VirtualMachine, Units, filter_devices, as_gpu, as_input}
use vfkit.Config.Options.{strv_to_options}
use vfkit.Start.{
  Options, Host, new_vm_configuration, new_bootloader_configuration, new_legacy_bootloader, add_gpu,
  add_input,
}
use vfkit.Start.CloudInit.{generate_cloud_init_image, no_config_files}
use vfkit.Start.Iso.{IsoWriter, create_cloud_init_iso}
use vfkit.Text.Path.{base}
use vfkit.Start.Configured.{IsConfigured, new_vm_configuration-IsConfigured}
use vfkit.Start.Devices.{new_vm_configuration-AllAccepted, new_vm_configuration-window}
use vfkit.Start.Wait.{
  Event, signal, new_state, timed_out, waiting, reached, wait_for_vm_state, IsIgnored, EndsAt,
  wait_for_vm_state-Waited,
}

abbrev units : Units
units = record { mib_to_bytes = λ n. (n * 2 ^ 20) % 2 ^ 64; to_mib = λ b. b / 2 ^ 20 }

-- The image cannot be written.
abbrev iso_writer : IsoWriter
iso_writer = record {
  new_writer = ok tt;
  order = λ files. files;
  add = λ file. ok tt;
  mkdir_all = ok tt;
  create_temp = ok (codes "/tmp/a.iso");
  write_to = λ name files. err (errorf "no space left on device" []);
}

-- The file is removed at the end all the same.
image_removed : (create_cloud_init_iso iso_writer no_config_files).0 ≡ codes "/tmp/a.iso" ∷ []
unfolding create_cloud_init_iso
image_removed = refl

abbrev host : Host
host = record {
  file = λ path. cannot_open (codes "no such file or directory");
  open_file = λ path. ok tt;
  iso = iso_writer;
  write_pid_file = λ path. ok tt;
  nested_supported = false;
}

abbrev opts : Options
opts = record {
  vcpus = 2;
  memory_mib = 512;
  vmlinuz_path = codes "/vmlinuz";
  kernel_cmdline = [];
  initrd_path = [];
  bootloader = record { value = []; changed = false };
  timesync = [];
  devices = codes "virtio-rng" ∷ [];
  restful_uri = codes "none://";
  log_level = [];
  use_gui = true;
  ignition_path = [];
  cloud_init_files = record { value = []; changed = false };
  nested = false;
  pid_file = [];
}

abbrev machine : VirtualMachine
machine = record {
  vcpus = 2;
  memory = 2 ^ 29;
  bootloader =
      some (
        linux (record { vmlinuz_path = codes "/vmlinuz"; kernel_cmd_line = []; initrd_path = [] }));
  devices =
      virtio_rng
      ∷ virtio_gpu (record gpu_new { uses_gui = true })
      ∷ virtio_input (record { input_type = codes "keyboard" })
      ∷ [];
  timesync = none;
  ignition = none;
  nested = false;
}

machine_made : new_vm_configuration units host opts ≡ ok machine
unfolding codes new_vm_configuration new_bootloader_configuration new_legacy_bootloader add_gpu
    add_input input_new filter_devices device_from_cmd_line split no_options strv_to_options
    generate_cloud_init_image
machine_made = refl

new_vm_configuration-IsConfigured_example : IsConfigured units host opts machine
new_vm_configuration-IsConfigured_example =
    new_vm_configuration-IsConfigured units host opts machine machine_made

new_vm_configuration-AllAccepted_example : All (IsAccepted host.file) machine.devices
new_vm_configuration-AllAccepted_example =
    new_vm_configuration-AllAccepted units host opts machine machine_made

new_vm_configuration-window_example :
    (filter_devices as_gpu machine.devices ≢ []) × (filter_devices as_input machine.devices ≢ [])
new_vm_configuration-window_example =
    new_vm_configuration-window units host opts machine refl machine_made

file_name : base (codes "/tmp/ci/user-data") ≡ codes "user-data"
unfolding base codes
file_name = refl

abbrev events : List Event
events = signal 13 ∷ new_state 4 ∷ new_state 1 ∷ timed_out ∷ []

wait_for_vm_state-Waited_example :
    ((wait_for_vm_state 3 1 events ≡ waiting) × All (IsIgnored 3 1) events)
    ⊎ EndsAt 3 1 events (wait_for_vm_state 3 1 events)
wait_for_vm_state-Waited_example = wait_for_vm_state-Waited 3 1 events

running : wait_for_vm_state 3 1 events ≡ reached
unfolding wait_for_vm_state
running = refl
