-- ===== src/Start/Configured.antt =====
-- What `newVMConfiguration` makes of the options.
use vfkit.Base.{
  errorf, not, ◌&&◌, Bool, true, false, Bool-cases, Option, some, none, List, [], ◌∷◌, ◌++◌, ◌≡◌,
  inl, inr, refl, sym, ap, ◌∙◌, subst, ok, >>=-eq-ok, fail_if, append_assoc, append-nil,
  if◌then◌else◌,
}
use vfkit.Text.{Text, codes}
use vfkit.Cmdline.{get_slice, is_nil}
use vfkit.Config.Bootloader.{Bootloader}
use vfkit.Config.Device.{VirtioDevice, virtio_gpu, virtio_input}
use vfkit.Config.Device.Gpu.{VirtioGpu, gpu_new}
use vfkit.Config.Device.Input.{input_new}
use vfkit.Config.Machine.{
  VirtualMachine, Units, new_virtual_machine, add_devices, add_devices_from_cmd_line, keep,
  add_timesync_from_cmd_line, filter_devices, as_gpu, as_input,
}
use vfkit.Config.Machine.Devices.{ReadAll}
use vfkit.Config.TimeSync.{TimeSync, Ignition}
use vfkit.Start.{
  Options, Host, new_bootloader_configuration, new_vm_configuration, returned, with_image, with_gui,
  add_gpu, add_input, write_pid,
}
use vfkit.Start.Steps.{returned_as-ok, returned_timesync, returned_ignition, returned_devices}
use vfkit.Start.CloudInit.{generate_cloud_init_image}
use vfkit.Start.Iso.{iso_name}

-- A GPU and a keyboard, each if it is missing.
abbrev pub gui_parts : Bool → Bool → List VirtioDevice
gui_parts no_gpu no_input =
    (if no_gpu then virtio_gpu (record gpu_new { uses_gui = true }) ∷ [] else [])
    ++ (if no_input then virtio_input (record { input_type = codes "keyboard" }) ∷ [] else [])

-- The devices that a window adds.
abbrev pub gui_devices : Bool → List VirtioDevice → List VirtioDevice
gui_devices false devs = []
gui_devices true devs =
    gui_parts (is_nil (filter_devices as_gpu devs)) (is_nil (filter_devices as_input devs))

keep-append {ℓ} : {A : Type ℓ} (o : Option A) (xs ys : List A) → keep o (xs ++ ys) ≡ keep o xs ++ ys
keep-append none xs ys = refl
keep-append (some a) xs ys = refl

pub filter_devices-append :
    {A : Type 0} (is_v : VirtioDevice → Option A) (xs ys : List VirtioDevice)
    → filter_devices is_v (xs ++ ys) ≡ filter_devices is_v xs ++ filter_devices is_v ys
unfolding filter_devices
filter_devices-append is_v [] ys = refl
filter_devices-append is_v (x ∷ xs) ys =
    ap (keep (is_v x)) (filter_devices-append is_v xs ys) ∙ keep-append (is_v x) _ _

add_input-eq :
    (vm : VirtualMachine)
    → add_input vm
      ≡ ok (
          add_devices vm (
            if is_nil (filter_devices as_input vm.devices)
            then virtio_input (record { input_type = codes "keyboard" }) ∷ []
            else []))
unfolding add_input input_new codes
add_input-eq vm = elim (Bool-cases (is_nil (filter_devices as_input vm.devices))) [
  | inl e ↦ rw e
  | inr e ↦ rw (e, append-nil)
]

input_behind_gpu :
    (gpu : VirtioGpu) (devs : List VirtioDevice)
    → filter_devices as_input (devs ++ virtio_gpu gpu ∷ []) ≡ filter_devices as_input devs
unfolding filter_devices
input_behind_gpu gpu devs = filter_devices-append as_input devs (virtio_gpu gpu ∷ []) ∙ append-nil _

with_gui-eq :
    (gui : Bool) (vm : VirtualMachine)
    → with_gui gui vm ≡ ok (add_devices vm (gui_devices gui vm.devices))
unfolding add_gpu
with_gui-eq false vm = rw append-nil
with_gui-eq true vm = elim (Bool-cases (is_nil (filter_devices as_gpu vm.devices))) [
  | inl e ↦ rw e (add_input-eq _ ∙ rw (input_behind_gpu _ vm.devices, append_assoc))
  | inr e ↦ rw e (add_input-eq vm)
]

-- What the machine has of the options and of the devices that were read from them.
abbrev pub configured :
    Units
    → Options
    → Bootloader
    → List VirtioDevice
    → Option TimeSync
    → Option Ignition
    → VirtualMachine
configured u opts boot devs timesync ignition = record {
  vcpus = opts.vcpus;
  memory = u.mib_to_bytes opts.memory_mib;
  bootloader = some boot;
  devices = devs ++ gui_devices opts.use_gui devs;
  timesync = timesync;
  ignition = ignition;
  nested = opts.nested;
}

pub record IsConfigured (u : Units) (host : Host) (opts : Options) (vm : VirtualMachine)
    : Type 0 where
  pub boot : Bootloader
  pub image : Text
  pub devs : List VirtioDevice
  pub boot_is : new_bootloader_configuration opts ≡ ok boot
  pub image_is :
      generate_cloud_init_image host.open_file (iso_name host.iso) (get_slice opts.cloud_init_files)
      ≡ ok image
  pub read : ReadAll host.file (with_image image opts.devices) devs
  pub vm_is : configured u opts boot devs vm.timesync vm.ignition ≡ vm

with_gui-ok :
    (gui : Bool) (vm r : VirtualMachine)
    → with_gui gui vm ≡ ok r
    → add_devices vm (gui_devices gui vm.devices) ≡ r
with_gui-ok gui vm r e =
    let both : ok (add_devices vm (gui_devices gui vm.devices)) ≡ ok r =
      sym (with_gui-eq gui vm) ∙ e in
    cc

assembled :
    (u : Units) (opts : Options) (boot : Bootloader) (devs : List VirtioDevice)
    (ts : Option TimeSync) (i : Option Ignition) {vm1 vm2 vm3 vm : VirtualMachine}
    → record (new_virtual_machine u opts.vcpus opts.memory_mib (some boot)) {
      nested = opts.nested;
      timesync = ts;
    }
      ≡ vm1
    → add_devices vm1 devs ≡ vm2
    → add_devices vm2 (gui_devices opts.use_gui vm2.devices) ≡ vm3
    → record vm3 { ignition = i } ≡ vm
    → configured u opts boot devs vm.timesync vm.ignition ≡ vm
assembled u opts boot devs ts i p q r s =
    let p2 = ap (λ (v : VirtualMachine). add_devices v devs) p ∙ q in
    let p3 =
      ap (λ (v : VirtualMachine). add_devices v (gui_devices opts.use_gui v.devices)) p2 ∙ r in
    let p4 = ap (λ (v : VirtualMachine). record v { ignition = i }) p3 ∙ s in
    subst (λ (m : VirtualMachine). configured u opts boot devs m.timesync m.ignition ≡ m) p4 refl

module _ (u : Units) (host : Host) where
  -- A machine that `newVMConfiguration` returns has the CPUs, the memory, the bootloader and the
  -- nested flag of the options, the devices of all device arguments in order, that of the
  -- cloud-init image behind them, and for a window a GPU and a keyboard where there were none.
  pub new_vm_configuration-IsConfigured :
      (opts : Options) (vm : VirtualMachine)
      → new_vm_configuration u host opts ≡ ok vm
      → IsConfigured u host opts vm
  unfolding new_vm_configuration
  new_vm_configuration-IsConfigured opts vm e =
      let start : Bootloader → VirtualMachine = λ b.
        record (new_virtual_machine u opts.vcpus opts.memory_mib (some b)) {
          nested = opts.nested;
        } in
      let (boot, boot_is, e1) = >>=-eq-ok (new_bootloader_configuration opts) _ e in
      let (_, allowed, e2) =
        >>=-eq-ok
          (fail_if (opts.nested && not host.nested_supported)
            (errorf "nested virtualization is not supported" []))
          _ e1 in
      let (vm1, timed, e3) =
        >>=-eq-ok (returned (add_timesync_from_cmd_line (start boot) opts.timesync)) _ e2 in
      let (image, image_is, e4) =
        >>=-eq-ok
          (generate_cloud_init_image host.open_file (iso_name host.iso)
            (get_slice opts.cloud_init_files))
          _ e3 in
      let (_, pid, e5) = >>=-eq-ok (write_pid host.write_pid_file opts.pid_file) _ e4 in
      let (vm2, added, e6) =
        >>=-eq-ok
          (returned (add_devices_from_cmd_line host.file vm1 (with_image image opts.devices))) _
          e5 in
      let (vm3, shown, e7) = >>=-eq-ok (with_gui opts.use_gui vm2) _ e6 in
      let (ts, vm1_is) = returned_timesync (start boot) opts.timesync vm1 timed in
      let (devs, read, vm2_is) =
        returned_devices host.file vm1 (with_image image opts.devices) vm2 added in
      let (i, vm_is) =
        returned_ignition vm3 opts.ignition_path vm
          (returned_as-ok "failed to add ignition file: %w" _ vm e7) in
      record {
        boot = boot;
        image = image;
        devs = devs;
        boot_is = boot_is;
        image_is = image_is;
        read = read;
        vm_is =
            assembled u opts boot devs ts i vm1_is vm2_is (with_gui-ok opts.use_gui vm2 vm3 shown)
              vm_is;
      }
