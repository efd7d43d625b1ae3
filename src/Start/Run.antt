-- ===== src/Start/Run.antt =====
-- `runVFKit` and `runVirtualMachine` of cmd/vfkit/main.go. What they call of the framework, the
-- service and the proxies is a parameter, and so are the events that the waits receive.
use vfkit.Base.{
  ℕ, Bool, true, false, Option, none, some, List, [], ◌∷◌, ◌++◌, Result, ok, err, wrapf, ◌>>=◌,
  ◌>>◌, if◌then◌else◌,
}
use vfkit.Base.Int.{ℤ}
use vfkit.Text.{Text, is_empty, codes, text_eq}
use vfkit.Config.Device.{VirtioDevice, virtio_gpu}
use vfkit.Config.Device.Gpu.{VirtioGpu}
use vfkit.Config.Device.Vsock.{VirtioVsock}
use vfkit.Config.Machine.{VirtualMachine, filter_devices, as_gpu, as_vsock}
use vfkit.Start.Wait.{Event, Wait, waiting, reached, failed, wait_for_vm_state}

-- `gpuDevs[0].UsesGUI = true`: the first GPU, which the machine shares.
unfoldable pub show_first_gpu : List VirtioDevice → List VirtioDevice
show_first_gpu [] = []
show_first_gpu (virtio_gpu d ∷ devs) = virtio_gpu (record d { uses_gui = true }) ∷ devs
show_first_gpu (dev ∷ devs) = dev ∷ show_first_gpu devs

abbrev pub show_gui : Bool → List VirtioDevice → List VirtioDevice
show_gui true devs = show_first_gpu devs
show_gui false devs = devs

-- What is called of the framework's machine and for it, in order.
pub data Call : Type 0 where
  starts : Call
  exposes : VirtioVsock → Call
  listens : Call
  opens : ℤ → ℤ → Call

-- The proxies of the vsock devices: the calls, and the proxies that are opened. A device with no
-- URL is passed over, and so is one whose proxy fails.
module _ (expose_vsock : VirtioVsock → Result (Unit {0})) where
  abbrev pub opened : VirtioVsock → Result (Unit {0}) → List VirtioVsock → List VirtioVsock
  opened vsock (err e) rest = rest
  opened vsock (ok _) rest = vsock ∷ rest

  unfoldable pub expose_all : List VirtioVsock → List Call × List VirtioVsock
  expose_all [] = ([], [])
  expose_all (vsock ∷ vsocks) =
      let rest = expose_all vsocks in
      if is_empty vsock.socket_url
      then rest
      else (exposes vsock ∷ rest.0, opened vsock (expose_vsock vsock) rest.1)

-- The loop over the GPUs: the window of the first one that is shown.
unfoldable pub shown_gpu : List VirtioGpu → Option VirtioGpu
shown_gpu [] = none
shown_gpu (d ∷ ds) = if d.uses_gui then some d else shown_gpu ds

-- The framework's machine.
pub record Running : Type 0 where
  pub start : Result (Unit {0})
  pub expose_vsock : VirtioVsock → Result (Unit {0})
  pub listen_network_block_devices : Result (Unit {0})
  pub start_graphic_application : ℤ → ℤ → Result (Unit {0})
  pub error_state : ℕ
  pub running : ℕ
  pub stopped : ℕ

-- How far the run has come: it waits, or it has returned. The proxies stay open until then.
pub data Progress : Type 0 where
  starting : Progress
  in_service : List VirtioVsock → Progress
  returned : Result (Unit {0}) → Progress

pub record Run : Type 0 where
  pub calls : List Call
  pub progress : Progress

-- A run that has made the calls before.
abbrev pub calling : List Call → Run → Run
calling calls r = record r { calls = calls ++ r.calls }

abbrev pub returning : Result (Unit {0}) → Run
returning r = record { calls = []; progress = returned r }

module _ (vm : Running) where
  abbrev pub stop_result : List VirtioVsock → Wait → Run
  stop_result proxies waiting = record { calls = []; progress = in_service proxies }
  stop_result proxies reached = returning (ok tt)
  stop_result proxies (failed e) = returning (err (wrapf "virtualization error: %v" e))

  -- What follows a call that may fail.
  abbrev pub if_ok : Result (Unit {0}) → Run → Run
  if_ok (err e) r = returning (err e)
  if_ok (ok _) r = r

  abbrev pub open_window : Option VirtioGpu → Run → Run
  open_window none r = r
  open_window (some d) r =
      calling (opens d.width d.height ∷ [])
        (if_ok (vm.start_graphic_application d.width d.height) r)

  -- The part behind the wait for the running machine, with the outcome of the wait for its end.
  abbrev pub serve : List VirtioDevice → Wait → Run
  serve devices w =
      let proxies = expose_all vm.expose_vsock (filter_devices as_vsock devices) in
      calling proxies.0 (
        calling (listens ∷ []) (
          if_ok vm.listen_network_block_devices
            (open_window (shown_gpu (filter_devices as_gpu devices)) (stop_result proxies.1 w))))

  abbrev pub await_running : List VirtioDevice → Wait → Wait → Run
  await_running devices waiting w = record { calls = []; progress = starting }
  await_running devices (failed e) w = returning (err e)
  await_running devices reached w = serve devices w

  -- `runVirtualMachine`, with the events of its two waits.
  unfoldable pub run_virtual_machine : List VirtioDevice → List Event → List Event → Run
  unfolding expose_all filter_devices shown_gpu wait_for_vm_state
  run_virtual_machine devices before after = calling (starts ∷ []) (
      if_ok vm.start (
        await_running devices (wait_for_vm_state vm.error_state vm.running before)
          (wait_for_vm_state vm.error_state vm.stopped after)))

-- `runVFKit` up to `runVirtualMachine`: a new machine of the framework, and the service unless its
-- URI is `none://`, the default.
pub record Setup : Type 0 where
  pub new_virtual_machine : VirtualMachine → Result Running
  pub new_server : Text → Result (Unit {0})

abbrev pub serve_if_wanted : Setup → Text → Result (Unit {0})
serve_if_wanted s uri = if text_eq uri (codes "none://") then ok tt else s.new_server uri

abbrev pub run_created : List VirtioDevice → List Event → List Event → Result Running → Run
run_created devices before after (err e) = returning (err e)
run_created devices before after (ok vm) = run_virtual_machine vm devices before after

unfoldable pub run_vfkit : Setup → VirtualMachine → Bool → Text → List Event → List Event → Run
unfolding show_first_gpu run_virtual_machine text_eq codes
run_vfkit s config use_gui restful_uri before after =
    let shown : VirtualMachine = record config { devices = show_gui use_gui config.devices } in
    run_created shown.devices before after
      (do vm ← s.new_virtual_machine shown; serve_if_wanted s restful_uri; ok vm)
