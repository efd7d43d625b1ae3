-- ===== src/Vf/Create.antt =====
-- `NewVirtualMachine` of pkg/vf/vm.go with the bootloaders of pkg/vf/bootloader.go and the macOS
-- platform of pkg/vf/vm_arm64.go and pkg/vf/vm_amd64.go. The framework and the host are a parameter.
use vfkit.Base.{
  wrapped, ℕ, Bool, not, Option, none, some, List, [], ◌∷◌, if◌then◌else◌, errorf, Result, ok, err,
  ◌>>=◌, ◌>>◌, fail_if,
}
use vfkit.Text.{Text, codes}
use vfkit.Cmdline.{is_nil}
use vfkit.Config.Bootloader.{
  Bootloader, linux, efi, macos, LinuxBootloader, EfiBootloader, MacOsBootloader,
}
use vfkit.Config.Machine.{VirtualMachine}
use vfkit.Vf.{Framework, VmConfiguration, to_vz}
use vfkit.Vf.Kernel.{is_kernel_uncompressed}

-- The configuration that the framework checks, with all that was set in it.
pub record Assembled (Native : Type 0) : Type 0 where
  pub base : Native
  pub platform : Native
  pub devices : VmConfiguration Native
  pub consoles : List Native

-- A variable store is made if the flag is
-- set; `set_nested` returns the platform with nested virtualization.
pub record Creator (Native : Type 0) : Type 0 where
  pub is_arm64 : Bool
  pub framework : Framework Native
  pub open_read : Text → Result Text
  pub linux_boot_loader : Text → Text → Text → Result Native
  pub variable_store : Text → Bool → Result Native
  pub efi_boot_loader : Native → Result Native
  pub macos_boot_loader : Result Native
  pub configuration : Native → ℕ → ℕ → Result Native
  pub hardware_model : Text → Result Native
  pub auxiliary_storage : Text → Native → Result Native
  pub machine_identifier : Text → Result Native
  pub macos_platform : Native → Native → Native → Result Native
  pub generic_identifier : Result Native
  pub generic_platform : Native → Result Native
  pub set_nested : Native → Result Native
  pub console_device : List Native → Result Native
  pub validate : Assembled Native → Result Bool
  pub virtual_machine : Assembled Native → Result Native

-- `VirtualMachine`: the native one, its configuration and the machine as it was changed.
pub record Created (Native : Type 0) : Type 0 where
  pub machine : Native
  pub assembled : Assembled Native
  pub config : VirtualMachine

-- `PlatformType`, which is set before the devices are made
unfoldable pub platform_type : Option Bootloader → Text
platform_type (some (macos b)) = codes "macos"
platform_type _ = codes "linux"

module _ {Native : Type 0} (c : Creator Native) where
  -- The check of the kernel, which other architectures skip.
  unfoldable pub check_kernel : Text → Result (Unit {0})
  unfolding is_kernel_uncompressed
  check_kernel path =
      if c.is_arm64
      then (do
        uncompressed ← is_kernel_uncompressed c.open_read path
        fail_if (not uncompressed)
            (errorf "kernel must be uncompressed, %s is a compressed file" (path ∷ [])))
      else ok tt

  unfoldable pub to_vz_linux_bootloader : LinuxBootloader → Result Native
  unfolding check_kernel
  to_vz_linux_bootloader b = do
    check_kernel b.vmlinuz_path
    c.linux_boot_loader b.vmlinuz_path b.kernel_cmd_line b.initrd_path

  unfoldable pub to_vz_efi_bootloader : EfiBootloader → Result Native
  to_vz_efi_bootloader b = do
    store ← c.variable_store b.efi_variable_store_path b.create_variable_store
    c.efi_boot_loader store

  abbrev pub not_on_amd64 {ℓ} : {A : Type ℓ} → Result A
  not_on_amd64 = err (errorf "running macOS guests is only supported on ARM devices" [])

  unfoldable pub to_vz_macos_bootloader : MacOsBootloader → Result Native
  to_vz_macos_bootloader b = if c.is_arm64 then c.macos_boot_loader else not_on_amd64

  unfoldable pub to_vz_bootloader : Option Bootloader → Result Native
  unfolding to_vz_linux_bootloader to_vz_efi_bootloader to_vz_macos_bootloader
  to_vz_bootloader none = err (errorf "unexpected bootloader type: %T" (codes "<nil>" ∷ []))
  to_vz_bootloader (some (linux b)) = to_vz_linux_bootloader b
  to_vz_bootloader (some (efi b)) = to_vz_efi_bootloader b
  to_vz_bootloader (some (macos b)) = to_vz_macos_bootloader b

  unfoldable pub new_virtual_machine_configuration : VirtualMachine → Result Native
  unfolding to_vz_bootloader
  new_virtual_machine_configuration vm = do
    b ← to_vz_bootloader vm.bootloader
    c.configuration b vm.vcpus vm.memory

  unfoldable pub new_mac_platform_configuration : MacOsBootloader → Result Native
  new_mac_platform_configuration b =
      if c.is_arm64
      then (do
        model ← wrapped "hardwareModel error: %w" (c.hardware_model b.hardware_model_path)
        storage ←
            wrapped "macAuxiliaryStorage error: %w" (c.auxiliary_storage b.aux_image_path model)
        identifier ←
            wrapped "machineIdentifier error: %w" (c.machine_identifier b.machine_identifier_path)
        c.macos_platform storage model identifier)
      else not_on_amd64

  unfoldable pub new_generic_platform_configuration : VirtualMachine → Result Native
  new_generic_platform_configuration vm = do
    identifier ← wrapped "error generating vz identifier: %v" c.generic_identifier
    platform ←
        wrapped "error creating generic platform configuration: %w" (c.generic_platform identifier)
    if vm.nested
        then wrapped "error setting nested virtualization enabled: %w" (c.set_nested platform)
        else ok platform

  -- The platform of a machine
  unfoldable pub platform_of : VirtualMachine → Option Bootloader → Result Native
  unfolding new_mac_platform_configuration new_generic_platform_configuration
  platform_of vm (some (macos b)) = do
    platform ← new_mac_platform_configuration b
    fail_if vm.nested (errorf "nested virtualization is not supported with the macOS bootloader" [])
    ok platform
  platform_of vm _ =
      wrapped "error creating generic platform configuration: %v"
        (new_generic_platform_configuration vm)

  -- One console device with all the ports, if there are any.
  unfoldable pub console_devices : List Native → Result (List Native)
  console_devices ports =
      if is_nil ports then ok [] else (do n ← c.console_device ports; ok (n ∷ []))

  -- The end of `toVz` of the configuration
  unfoldable pub assemble : Native → Native → VmConfiguration Native → Result (Assembled Native)
  unfolding console_devices
  assemble base platform devices = do
    consoles ← console_devices devices.console_ports
    let assembled : Assembled Native = record {
      base = base;
      platform = platform;
      devices = devices;
      consoles = consoles;
    }
    valid ← c.validate assembled
    fail_if (not valid) (errorf "invalid virtual machine configuration" [])
    ok assembled

  -- The framework once `PlatformType` is set
  abbrev pub framework_for : Text → Framework Native
  framework_for platform = record c.framework { platform_type = platform }

  unfoldable pub new_virtual_machine : VirtualMachine → Result (Created Native)
  unfolding new_virtual_machine_configuration platform_of platform_type to_vz assemble
  new_virtual_machine vm = do
    base ← new_virtual_machine_configuration vm
    platform ← platform_of vm vm.bootloader
    r ← to_vz (framework_for (platform_type vm.bootloader)) vm
    assembled ← assemble base platform r.0
    machine ← c.virtual_machine assembled
    ok (record { machine = machine; assembled = assembled; config = r.1 })
