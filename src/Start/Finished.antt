-- ===== src/Start/Finished.antt =====
-- When the run returns, and what it has called.
use vfkit.Base.{
  Bool, true, false, Option, none, some, List, [], ◌∷◌, ◌++◌, ◌≡◌, refl, ap, ◌∙◌, Result, ok, err,
  if◌then◌else◌, Bool-cases, inl, inr,
}
use vfkit.Text.{Text, is_empty}
use vfkit.Config.Device.{VirtioDevice, virtio_vsock, virtio_gpu}
use vfkit.Config.Device.Gpu.{VirtioGpu}
use vfkit.Config.Device.Vsock.{VirtioVsock}
use vfkit.Config.Machine.{VirtualMachine, filter_devices, as_gpu, as_vsock}
use vfkit.Start.Wait.{Event, Wait, waiting, reached, failed, wait_for_vm_state}
use vfkit.Start.Run.{
  show_first_gpu, show_gui, expose_all, shown_gpu, Running, Call, starts, exposes, listens, opens,
  Progress, starting, in_service, returned, Run, stop_result, if_ok, open_window, serve,
  await_running, run_virtual_machine, Setup, run_created, run_vfkit,
}

module _ (vm : Running) where
  if_ok-ok :
      (r : Result (Unit {0})) (run : Run)
      → (if_ok vm r run).progress ≡ returned (ok tt)
      → (r ≡ ok tt) × (run.progress ≡ returned (ok tt))
  if_ok-ok (err e) run h = cc
  if_ok-ok (ok _) run h = (refl, h)

  stop_result-ok :
      (proxies : List VirtioVsock) (w : Wait)
      → (stop_result vm proxies w).progress ≡ returned (ok tt)
      → w ≡ reached
  stop_result-ok proxies waiting e = cc
  stop_result-ok proxies reached e = refl
  stop_result-ok proxies (failed x) e = cc

  open_window-ok :
      (gui : Option VirtioGpu) (run : Run)
      → (open_window vm gui run).progress ≡ returned (ok tt)
      → run.progress ≡ returned (ok tt)
  open_window-ok none run e = e
  open_window-ok (some d) run e = (if_ok-ok (vm.start_graphic_application d.width d.height) run e).1

  await_running-ok :
      (devices : List VirtioDevice) (w w' : Wait)
      → (await_running vm devices w w').progress ≡ returned (ok tt)
      → (w ≡ reached) × (w' ≡ reached)
  await_running-ok devices waiting w' e = cc
  await_running-ok devices (failed x) w' e = cc
  await_running-ok devices reached w' e =
      let proxies = (expose_all vm.expose_vsock (filter_devices as_vsock devices)).1 in
      let gui = shown_gpu (filter_devices as_gpu devices) in
      let (_, served) =
        if_ok-ok vm.listen_network_block_devices (open_window vm gui (stop_result vm proxies w'))
          e in
      (refl, stop_result-ok proxies w' (open_window-ok gui (stop_result vm proxies w') served))

  -- The run returns without an error only if the machine was started, was seen to run, and was
  -- then seen to stop.
  pub run_virtual_machine-ok :
      (devices : List VirtioDevice) (before after : List Event)
      → (run_virtual_machine vm devices before after).progress ≡ returned (ok tt)
      → (vm.start ≡ ok tt)
        × (wait_for_vm_state vm.error_state vm.running before ≡ reached)
        × (wait_for_vm_state vm.error_state vm.stopped after ≡ reached)
  unfolding run_virtual_machine
  run_virtual_machine-ok devices before after e =
      let w = wait_for_vm_state vm.error_state vm.running before in
      let w' = wait_for_vm_state vm.error_state vm.stopped after in
      let (started, rest) = if_ok-ok vm.start (await_running vm devices w w') e in
      let (runs, stops) = await_running-ok devices w w' rest in (started, runs, stops)

-- The run has come into service, and has not failed since.
abbrev pub IsServing : Progress → Type 0
IsServing starting = ⊥
IsServing (in_service proxies) = Unit
IsServing (returned (ok _)) = Unit
IsServing (returned (err e)) = ⊥

-- The proxies that are asked for: the vsock devices with a URL.
abbrev pub proxy_calls : List VirtioDevice → List Call
proxy_calls [] = []
proxy_calls (virtio_vsock d ∷ devs) =
    if is_empty d.socket_url then proxy_calls devs else exposes d ∷ proxy_calls devs
proxy_calls (_ ∷ devs) = proxy_calls devs

-- The window: that of the first GPU with `--gui`, and else of the first one that is to be shown.
abbrev pub window_call : Bool → List VirtioDevice → List Call
window_call gui [] = []
window_call gui (virtio_gpu d ∷ devs) =
    if gui
    then opens d.width d.height ∷ []
    else if d.uses_gui
    then opens d.width d.height ∷ []
    else window_call gui devs
window_call gui (_ ∷ devs) = window_call gui devs

abbrev shown_call : Option VirtioGpu → List Call
shown_call none = []
shown_call (some d) = opens d.width d.height ∷ []

expose_all-calls :
    (expose : VirtioVsock → Result (Unit {0})) (devs : List VirtioDevice)
    → (expose_all expose (filter_devices as_vsock devs)).0 ≡ proxy_calls devs
unfolding expose_all filter_devices
expose_all-calls expose [] = refl
expose_all-calls expose (virtio_vsock d ∷ devs) = elim (Bool-cases (is_empty d.socket_url)) [
  | inl e ↦ rw e (expose_all-calls expose devs)
  | inr e ↦ rw e (ap (λ l. exposes d ∷ l) (expose_all-calls expose devs))
]
expose_all-calls expose (_ ∷ devs) = expose_all-calls expose devs

shown_gpu-window :
    (devs : List VirtioDevice)
    → shown_call (shown_gpu (filter_devices as_gpu devs)) ≡ window_call false devs
unfolding shown_gpu filter_devices
shown_gpu-window [] = refl
shown_gpu-window (virtio_gpu d ∷ devs) = elim (Bool-cases d.uses_gui) [
  | inl e ↦ rw e refl
  | inr e ↦ rw e (shown_gpu-window devs)
]
shown_gpu-window (_ ∷ devs) = shown_gpu-window devs

show_gui-window :
    (gui : Bool) (devs : List VirtioDevice)
    → window_call false (show_gui gui devs) ≡ window_call gui devs
unfolding show_first_gpu
show_gui-window false devs = refl
show_gui-window true [] = refl
show_gui-window true (virtio_gpu d ∷ devs) = refl
show_gui-window true (_ ∷ devs) = show_gui-window true devs

show_gui-proxies :
    (gui : Bool) (devs : List VirtioDevice) → proxy_calls (show_gui gui devs) ≡ proxy_calls devs
unfolding show_first_gpu
show_gui-proxies false devs = refl
show_gui-proxies true [] = refl
show_gui-proxies true (virtio_gpu d ∷ devs) = refl
show_gui-proxies true (virtio_vsock d ∷ devs) = rw (show_gui-proxies true devs) refl
show_gui-proxies true (_ ∷ devs) = show_gui-proxies true devs

module _ (vm : Running) where
  if_ok-calls :
      (r : Result (Unit {0})) (run : Run)
      → IsServing (if_ok vm r run).progress
      → ((if_ok vm r run).calls ≡ run.calls) × IsServing run.progress
  if_ok-calls (err e) run h = absurd h
  if_ok-calls (ok _) run h = (refl, h)

  stop_result-calls :
      (proxies : List VirtioVsock) (w : Wait) → (stop_result vm proxies w).calls ≡ []
  stop_result-calls proxies waiting = refl
  stop_result-calls proxies reached = refl
  stop_result-calls proxies (failed e) = refl

  opened-calls : (r : Result (Unit {0})) (run : Run) → run.calls ≡ [] → (if_ok vm r run).calls ≡ []
  opened-calls (err e) run h = refl
  opened-calls (ok _) run h = h

  open_window-calls :
      (gui : Option VirtioGpu) (run : Run)
      → run.calls ≡ []
      → (open_window vm gui run).calls ≡ shown_call gui
  open_window-calls none run h = h
  open_window-calls (some d) run h =
      ap (λ l. opens d.width d.height ∷ l)
        (opened-calls (vm.start_graphic_application d.width d.height) run h)

  serve-calls :
      (devices : List VirtioDevice) (w : Wait)
      → IsServing (serve vm devices w).progress
      → (serve vm devices w).calls ≡ proxy_calls devices ++ listens ∷ window_call false devices
  serve-calls devices w h =
      let proxies = (expose_all vm.expose_vsock (filter_devices as_vsock devices)).1 in
      let gui = shown_gpu (filter_devices as_gpu devices) in
      let end = stop_result vm proxies w in
      let (same, _) = if_ok-calls vm.listen_network_block_devices (open_window vm gui end) h in
      ap (λ l. (expose_all vm.expose_vsock (filter_devices as_vsock devices)).0 ++ listens ∷ l)
        (same ∙ open_window-calls gui end (stop_result-calls proxies w) ∙ shown_gpu-window devices)
      ∙ ap (λ l. l ++ listens ∷ window_call false devices)
          (expose_all-calls vm.expose_vsock devices)

  await_running-calls :
      (devices : List VirtioDevice) (w w' : Wait)
      → IsServing (await_running vm devices w w').progress
      → (await_running vm devices w w').calls
        ≡ proxy_calls devices ++ listens ∷ window_call false devices
  await_running-calls devices waiting w' h = absurd h
  await_running-calls devices (failed e) w' h = absurd h
  await_running-calls devices reached w' h = serve-calls devices w' h

run_created-calls :
    (devices : List VirtioDevice) (before after : List Event) (r : Result Running)
    → IsServing (run_created devices before after r).progress
    → (run_created devices before after r).calls
      ≡ starts ∷ proxy_calls devices ++ listens ∷ window_call false devices
unfolding run_virtual_machine
run_created-calls devices before after (err e) h = absurd h
run_created-calls devices before after (ok vm) h =
    let w = wait_for_vm_state vm.error_state vm.running before in
    let w' = wait_for_vm_state vm.error_state vm.stopped after in
    let (same, serving) = if_ok-calls vm vm.start (await_running vm devices w w') h in
    ap (λ l. starts ∷ l) (same ∙ await_running-calls vm devices w w' serving)

-- A run that has come into service has started the machine, asked for a proxy of every vsock device
-- with a URL, in order, listened to the network block devices, and opened one window at most: with
-- `--gui` that of the first GPU, and without it that of the first GPU that the configuration shows.
pub run_vfkit-calls :
    (s : Setup) (config : VirtualMachine) (use_gui : Bool) (uri : Text) (before after : List Event)
    → IsServing (run_vfkit s config use_gui uri before after).progress
    → (run_vfkit s config use_gui uri before after).calls
      ≡ starts ∷ proxy_calls config.devices ++ listens ∷ window_call use_gui config.devices
unfolding run_vfkit
run_vfkit-calls s config use_gui uri before after h =
    let devices = show_gui use_gui config.devices in
    run_created-calls devices before after _ h
    ∙ ap (λ l. starts ∷ l ++ listens ∷ window_call false devices)
        (show_gui-proxies use_gui config.devices)
    ∙ ap (λ l. starts ∷ proxy_calls config.devices ++ listens ∷ l)
        (show_gui-window use_gui config.devices)
