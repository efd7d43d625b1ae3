-- ===== src/Vf/Created.antt =====
-- What `NewVirtualMachine` of pkg/vf/vm.go has checked and set in a machine that it returns.
use vfkit.Base.{
  wrapped, wrapped-eq-ok, Bool, true, false, not, Option, none, some, List, [], ◌∷◌, ◌≡◌, refl, ap,
  sym, ◌∙◌, ◌⊎◌, inl, inr, subst, errorf, Result, ok, err, ◌>>=◌, ◌>>◌, fail_if, >>=-eq-ok,
  if◌then◌else◌, arith,
}
use vfkit.Text.{Text}
use vfkit.Config.Bootloader.{Bootloader, linux, efi, macos}
use vfkit.Config.Machine.{VirtualMachine}
use vfkit.Vf.{VmConfiguration, to_vz}
use vfkit.Vf.Kernel.{
  buffer, is_kernel_uncompressed, IsArm64Kernel, is_uncompressed_arm64_kernel-IsArm64Kernel,
}
use vfkit.Vf.Create.{
  framework_for, Assembled, Creator, Created, check_kernel, to_vz_linux_bootloader,
  to_vz_macos_bootloader, to_vz_bootloader, new_virtual_machine_configuration,
  new_mac_platform_configuration, new_generic_platform_configuration, platform_of, platform_type,
  console_devices, assemble, new_virtual_machine,
}

fail_if-eq-ok : (b : Bool) (e : vfkit.Base.Error) → fail_if b e ≡ ok tt → b ≡ false
fail_if-eq-ok true e h = cc
fail_if-eq-ok false e h = refl

ok-eq : {A : Type 0} {a b : A} → ok a ≡ ok b → a ≡ b
ok-eq e = cc

if-eq-ok :
    {A : Type 0} (b : Bool) (r : Result A) (e : vfkit.Base.Error) (a : A)
    → (if b then r else err e) ≡ ok a
    → b ≡ true
if-eq-ok true r e a h = refl
if-eq-ok false r e a h = cc

not-eq-false : (b : Bool) → not b ≡ false → b ≡ true
not-eq-false true e = refl
not-eq-false false e = cc

module _ {Native : Type 0} (c : Creator Native) where
  -- A machine boots Linux from a file that can be read and, on arm64, has an uncompressed kernel,
  -- and macOS on arm64 without nested virtualization.
  abbrev pub IsBootable : VirtualMachine → Option Bootloader → Type 0
  IsBootable vm none = ⊥
  IsBootable vm (some (linux b)) =
      (c.is_arm64 ≡ false)
      ⊎ ((bytes : Text) × (c.open_read b.vmlinuz_path ≡ ok bytes) × IsArm64Kernel (buffer bytes))
  IsBootable vm (some (efi b)) = Unit
  IsBootable vm (some (macos b)) = (c.is_arm64 ≡ true) × (vm.nested ≡ false)

  -- Nested virtualization is set in the platform if it is wanted.
  abbrev pub IsPlatformFor : VirtualMachine → Native → Type 0
  IsPlatformFor vm platform =
      (vm.nested ≡ false) ⊎ ((plain : Native) × (c.set_nested plain ≡ ok platform))

  pub record IsCreated (vm : VirtualMachine) (created : Created Native) : Type 0 where
    pub is_bootable : IsBootable vm vm.bootloader
    pub is_platform_for : IsPlatformFor vm created.assembled.platform
    pub is_converted :
        to_vz (framework_for c (platform_type vm.bootloader)) vm
        ≡ ok (created.assembled.devices, created.config)
    pub is_valid : c.validate created.assembled ≡ ok true
    pub is_machine : c.virtual_machine created.assembled ≡ ok created.machine

  kernel_checked :
      (arm : Bool) (path : Text)
      → (if arm
          then (do
            uncompressed ← is_kernel_uncompressed c.open_read path
            fail_if
                (not uncompressed)
                (errorf "kernel must be uncompressed, %s is a compressed file" (path ∷ [])))
          else ok tt)
        ≡ ok tt
      → (arm ≡ false)
        ⊎ ((bytes : Text) × (c.open_read path ≡ ok bytes) × IsArm64Kernel (buffer bytes))
  unfolding is_kernel_uncompressed
  kernel_checked false path e = inl refl
  kernel_checked true path e =
      let (u, tested, e1) = >>=-eq-ok (is_kernel_uncompressed c.open_read path) _ e in
      let (bytes, read, e2) = >>=-eq-ok (c.open_read path) _ tested in
      let passed = not-eq-false u (fail_if-eq-ok (not u) _ e1) in
      inr
        (bytes, read, is_uncompressed_arm64_kernel-IsArm64Kernel (buffer bytes) (ok-eq e2 ∙ passed))

  nested_set :
      (nested : Bool) (plain platform : Native)
      → (if nested
          then wrapped "error setting nested virtualization enabled: %w" (c.set_nested plain)
          else ok plain)
        ≡ ok platform
      → (nested ≡ false) ⊎ ((p : Native) × (c.set_nested p ≡ ok platform))
  nested_set false plain platform e = inl refl
  nested_set true plain platform e = inr (plain, wrapped-eq-ok _ (c.set_nested plain) platform e)

  generic-eq-ok :
      (vm : VirtualMachine) (platform : Native)
      → new_generic_platform_configuration c vm ≡ ok platform
      → IsPlatformFor vm platform
  unfolding new_generic_platform_configuration
  generic-eq-ok vm platform e =
      let (identifier, _, e1) = >>=-eq-ok (wrapped _ c.generic_identifier) _ e in
      let (plain, _, e2) = >>=-eq-ok (wrapped _ (c.generic_platform identifier)) _ e1 in
      nested_set vm.nested plain platform e2

  platform_of-eq-ok :
      (vm : VirtualMachine) (o : Option Bootloader) (platform : Native)
      → platform_of c vm o ≡ ok platform
      → IsPlatformFor vm platform
  unfolding platform_of
  platform_of-eq-ok vm (some (macos b)) platform e =
      let (made, _, e1) = >>=-eq-ok (new_mac_platform_configuration c b) _ e in
      let (u, passed, _) = >>=-eq-ok (fail_if vm.nested _) _ e1 in
      inl (fail_if-eq-ok vm.nested _ passed)
  platform_of-eq-ok vm none platform e = generic-eq-ok vm platform (wrapped-eq-ok _ _ platform e)
  platform_of-eq-ok vm (some (linux b)) platform e =
      generic-eq-ok vm platform (wrapped-eq-ok _ _ platform e)
  platform_of-eq-ok vm (some (efi b)) platform e =
      generic-eq-ok vm platform (wrapped-eq-ok _ _ platform e)

  bootable :
      (vm : VirtualMachine) (o : Option Bootloader) (base platform : Native)
      → to_vz_bootloader c o ≡ ok base
      → platform_of c vm o ≡ ok platform
      → IsBootable vm o
  unfolding to_vz_bootloader platform_of to_vz_linux_bootloader to_vz_macos_bootloader check_kernel
  bootable vm none base platform e p = cc
  bootable vm (some (linux b)) base platform e p =
      let (u, checked, _) = >>=-eq-ok (check_kernel c b.vmlinuz_path) _ e in
      kernel_checked c.is_arm64 b.vmlinuz_path checked
  bootable vm (some (efi b)) base platform e p = tt
  bootable vm (some (macos b)) base platform e p =
      let (made, _, e1) = >>=-eq-ok (new_mac_platform_configuration c b) _ p in
      let (u, passed, _) = >>=-eq-ok (fail_if vm.nested _) _ e1 in
      (if-eq-ok c.is_arm64 _ _ base e, fail_if-eq-ok vm.nested _ passed)

  assemble-eq-ok :
      (base platform : Native) (devices : VmConfiguration Native) (a : Assembled Native)
      → assemble c base platform devices ≡ ok a
      → (a.platform ≡ platform) × (a.devices ≡ devices) × (c.validate a ≡ ok true)
  unfolding assemble
  assemble-eq-ok base platform devices a e =
      let (consoles, _, e1) = >>=-eq-ok (console_devices c devices.console_ports) _ e in
      let (valid, checked, e2) = >>=-eq-ok (c.validate _) _ e1 in
      let (u, passed, e3) = >>=-eq-ok (fail_if (not valid) _) _ e2 in
      let same = ok-eq e3 in
      (
        ap (λ x. x.platform) (sym same),
        ap (λ x. x.devices) (sym same),
        ap c.validate (sym same)
            ∙ checked
            ∙ ap ok (not-eq-false valid (fail_if-eq-ok (not valid) _ passed)),
      )

  -- A machine that is created boots what its architecture can boot, has the nested virtualization
  -- that it asks for, has the devices of its configuration, made for its platform, and has been
  -- found valid by the framework.
  pub new_virtual_machine-IsCreated :
      (vm : VirtualMachine) (created : Created Native)
      → new_virtual_machine c vm ≡ ok created
      → IsCreated vm created
  unfolding new_virtual_machine new_virtual_machine_configuration
  new_virtual_machine-IsCreated vm created e =
      let (base, based, e1) = >>=-eq-ok (new_virtual_machine_configuration c vm) _ e in
      let (boot, boots, e0) = >>=-eq-ok (to_vz_bootloader c vm.bootloader) _ based in
      let (platform, placed, e2) = >>=-eq-ok (platform_of c vm vm.bootloader) _ e1 in
      let (r, converted, e3) =
        >>=-eq-ok (to_vz (framework_for c (platform_type vm.bootloader)) vm) _ e2 in
      let (a, assembled, e4) = >>=-eq-ok (assemble c base platform r.0) _ e3 in
      let (m, made, e5) = >>=-eq-ok (c.virtual_machine a) _ e4 in
      let (platform_is, devices_are, valid) = assemble-eq-ok base platform r.0 a assembled in
      let assembled_is : a ≡ created.assembled = ap (λ x. x.assembled) (ok-eq e5) in
      let config_is : r.1 ≡ created.config = ap (λ x. x.config) (ok-eq e5) in
      let machine_is : m ≡ created.machine = ap (λ x. x.machine) (ok-eq e5) in
      record {
        is_bootable = bootable vm vm.bootloader boot platform boots placed;
        is_platform_for =
            subst (IsPlatformFor vm) (sym platform_is ∙ ap (λ x. x.platform) assembled_is)
              (platform_of-eq-ok vm vm.bootloader platform placed);
        is_converted =
            converted
            ∙ ap (λ d. ok (d, r.1)) (sym devices_are ∙ ap (λ x. x.devices) assembled_is)
            ∙ ap (λ f. ok (created.assembled.devices, f)) config_is;
        is_valid = ap c.validate (sym assembled_is) ∙ valid;
        is_machine = ap c.virtual_machine (sym assembled_is) ∙ made ∙ ap ok machine_is;
      }
