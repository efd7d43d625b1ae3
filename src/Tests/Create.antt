-- ===== src/Tests/Create.antt =====
-- Machines that boot Linux on arm64, with a framework whose objects are numbers.
use vfkit.Base.{ℕ, true, some, none, [], ◌∷◌, ◌++◌, ◌≡◌, refl, ok, err, errorf}
use vfkit.Text.{Text, codes}
use vfkit.Config.Bootloader.{Bootloader, linux, macos}
use vfkit.Config.Device.{virtio_rng}
use vfkit.Config.Machine.{VirtualMachine}
use vfkit.Vf.{empty_configuration}
use vfkit.Vf.Kernel.{pattern_bytes, zeros}
use vfkit.Vf.Create.{Creator, Created, new_virtual_machine}
use vfkit.Vf.Created.{IsCreated, new_virtual_machine-IsCreated}
use vfkit.Tests.Vf.{framework}

-- 9 is the platform with nested virtualization.
abbrev creator : Text → Creator ℕ
creator kernel = record {
  is_arm64 = true;
  framework = framework;
  open_read = λ path. ok kernel;
  linux_boot_loader = λ kernel cmd_line initrd. ok 3;
  variable_store = λ path create. ok 4;
  efi_boot_loader = λ store. ok 5;
  macos_boot_loader = ok 6;
  configuration = λ bootloader vcpus memory. ok 7;
  hardware_model = λ path. ok 0;
  auxiliary_storage = λ path model. ok 0;
  machine_identifier = λ path. ok 0;
  macos_platform = λ storage model identifier. ok 8;
  generic_identifier = ok 0;
  generic_platform = λ identifier. ok 8;
  set_nested = λ platform. ok 9;
  console_device = λ ports. ok 0;
  validate = λ assembled. ok true;
  virtual_machine = λ assembled. ok 1;
}

abbrev kernel : Text
kernel = zeros 56 ++ pattern_bytes

abbrev vm : Bootloader → VirtualMachine
vm bootloader = record {
  vcpus = 2;
  memory = 0;
  bootloader = some bootloader;
  devices = virtio_rng ∷ [];
  timesync = none;
  ignition = none;
  nested = true;
}

abbrev linux_vm : VirtualMachine
linux_vm =
    vm (linux (record { vmlinuz_path = codes "/vmlinuz"; kernel_cmd_line = []; initrd_path = [] }))

abbrev created : Created ℕ
created = record {
  machine = 1;
  assembled = record {
    base = 7;
    platform = 9;
    devices = record empty_configuration { entropy = 0 ∷ [] };
    consoles = [];
  };
  config = linux_vm;
}

new_virtual_machine-IsCreated_example : IsCreated (creator kernel) linux_vm created
new_virtual_machine-IsCreated_example =
    new_virtual_machine-IsCreated (creator kernel) linux_vm created
      (unfold new_virtual_machine zeros in refl)

compressed :
    new_virtual_machine (creator (31 ∷ 139 ∷ [])) linux_vm
    ≡ err (errorf "kernel must be uncompressed, %s is a compressed file" (codes "/vmlinuz" ∷ []))
unfolding new_virtual_machine
compressed = refl

nested_macos :
    new_virtual_machine (creator kernel) (
      vm (
        macos
          (record { machine_identifier_path = []; hardware_model_path = []; aux_image_path = [] })))
    ≡ err (errorf "nested virtualization is not supported with the macOS bootloader" [])
unfolding new_virtual_machine
nested_macos = refl
