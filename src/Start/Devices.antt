-- ===== src/Start/Devices.antt =====
-- The devices of a machine that `newVMConfiguration` returns.
use vfkit.Base.{
  Bool, true, false, List, [], ◌∷◌, ◌++◌, ◌≡◌, ◌≢◌, inr, refl, sym, ap, ◌∙◌, subst, ok, All,
  All-append, if◌then◌else◌, arith,
}
use vfkit.Text.{Text, codes}
use vfkit.Cmdline.{is_nil}
use vfkit.Config.Device.{VirtioDevice, virtio_gpu, virtio_input}
use vfkit.Config.Device.Accepted.{IsAccepted, device_from_cmd_line-IsAccepted}
use vfkit.Config.Device.Disk.{FileHeader}
use vfkit.Config.Device.Gpu.{gpu_new}
use vfkit.Config.Machine.{VirtualMachine, Units, filter_devices, as_gpu, as_input}
use vfkit.Config.Machine.Devices.{ReadAll}
use vfkit.Start.{Options, Host, new_vm_configuration}
use vfkit.Start.Configured.{
  gui_devices, gui_parts, filter_devices-append, new_vm_configuration-IsConfigured,
}

ReadAll-AllAccepted :
    (file : Text → FileHeader) (opts : List Text) (devs : List VirtioDevice)
    → ReadAll file opts devs
    → All (IsAccepted file) devs
ReadAll-AllAccepted file [] [] h = tt
ReadAll-AllAccepted file (s ∷ opts) (d ∷ devs) (h, t) =
    (device_from_cmd_line-IsAccepted file s d h, ReadAll-AllAccepted file opts devs t)
ReadAll-AllAccepted file [] (d ∷ devs) h = absurd h
ReadAll-AllAccepted file (s ∷ opts) [] h = absurd h

perhaps :
    (file : Text → FileHeader) (b : Bool) (d : VirtioDevice)
    → IsAccepted file d
    → All (IsAccepted file) (if b then d ∷ [] else [])
perhaps file true d h = (h, tt)
perhaps file false d h = tt

gui_devices-AllAccepted :
    (file : Text → FileHeader) (gui : Bool) (devs : List VirtioDevice)
    → All (IsAccepted file) (gui_devices gui devs)
gui_devices-AllAccepted file false devs = tt
gui_devices-AllAccepted file true devs =
    All-append (IsAccepted file) _ _
      (perhaps file (is_nil (filter_devices as_gpu devs))
        (virtio_gpu (record gpu_new { uses_gui = true })) (omega arith, omega arith))
      (perhaps file (is_nil (filter_devices as_input devs))
        (virtio_input (record { input_type = codes "keyboard" })) (inr refl))

append-nil-parts {ℓ} : {A : Type ℓ} (xs ys : List A) → xs ++ ys ≡ [] → (xs ≡ []) × (ys ≡ [])
append-nil-parts [] ys e = (refl, e)
append-nil-parts (x ∷ xs) ys e = cc

is_nil_of : {A : Type 0} (xs : List A) → xs ≡ [] → is_nil xs ≡ true
is_nil_of [] e = refl
is_nil_of (x ∷ xs) e = cc

window_gpu : (b c : Bool) → b ≡ true → filter_devices as_gpu (gui_parts b c) ≢ []
unfolding filter_devices
window_gpu true c h e = cc
window_gpu false c h e = cc

window_input : (b c : Bool) → c ≡ true → filter_devices as_input (gui_parts b c) ≢ []
unfolding filter_devices
window_input true true h e = cc
window_input false true h e = cc
window_input b false h e = cc

has_gpu : (devs : List VirtioDevice) → filter_devices as_gpu (devs ++ gui_devices true devs) ≢ []
has_gpu devs e =
    let (none_before, none_added) =
      append-nil-parts (filter_devices as_gpu devs) (filter_devices as_gpu (gui_devices true devs))
        (sym (filter_devices-append as_gpu devs (gui_devices true devs)) ∙ e) in
    window_gpu (is_nil (filter_devices as_gpu devs)) (is_nil (filter_devices as_input devs))
      (is_nil_of _ none_before) none_added

has_input :
    (devs : List VirtioDevice) → filter_devices as_input (devs ++ gui_devices true devs) ≢ []
has_input devs e =
    let (none_before, none_added) =
      append-nil-parts (filter_devices as_input devs)
        (filter_devices as_input (gui_devices true devs))
        (sym (filter_devices-append as_input devs (gui_devices true devs)) ∙ e) in
    window_input (is_nil (filter_devices as_gpu devs)) (is_nil (filter_devices as_input devs))
      (is_nil_of _ none_before) none_added

module _ (u : Units) (host : Host) (opts : Options) (vm : VirtualMachine) where
  -- Every device of a machine that is started has passed the checks of its type.
  pub new_vm_configuration-AllAccepted :
      new_vm_configuration u host opts ≡ ok vm → All (IsAccepted host.file) vm.devices
  new_vm_configuration-AllAccepted e =
      let c = new_vm_configuration-IsConfigured u host opts vm e in
      subst (λ (m : VirtualMachine). All (IsAccepted host.file) m.devices) c.vm_is
        (All-append (IsAccepted host.file) c.devs (gui_devices opts.use_gui c.devs)
          (ReadAll-AllAccepted host.file _ c.devs c.read)
          (gui_devices-AllAccepted host.file opts.use_gui c.devs))

  -- A machine that is started with a window has a GPU and an input device.
  pub new_vm_configuration-window :
      opts.use_gui ≡ true
      → new_vm_configuration u host opts ≡ ok vm
      → (filter_devices as_gpu vm.devices ≢ []) × (filter_devices as_input vm.devices ≢ [])
  new_vm_configuration-window gui e =
      let c = new_vm_configuration-IsConfigured u host opts vm e in
      let gui_is : c.devs ++ gui_devices true c.devs ≡ vm.devices =
        ap (λ (b : Bool). c.devs ++ gui_devices b c.devs) (sym gui)
        ∙ ap (λ (m : VirtualMachine). m.devices) c.vm_is in
      subst
        (λ (l : List VirtioDevice).
          (filter_devices as_gpu l ≢ []) × (filter_devices as_input l ≢ []))
        gui_is (has_gpu c.devs, has_input c.devs)
