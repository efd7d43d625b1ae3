-- ===== src/Tests/Run.antt =====
-- A run of a machine with a window, and its shutdown.
use vfkit.Base.{ℕ, true, false, none, List, [], ◌∷◌, ◌++◌, ◌≡◌, ◌≢◌, ◌⊎◌, refl, ok, arith}
use vfkit.Text.{codes, text_eq}
use vfkit.Config.Device.{virtio_gpu, virtio_vsock}
use vfkit.Config.Device.Gpu.{gpu_new}
use vfkit.Config.Device.Vsock.{VirtioVsock}
use vfkit.Config.Machine.{VirtualMachine, filter_devices}
use vfkit.Start.Wait.{new_state, timed_out, reached, wait_for_vm_state, EndsAt}
use vfkit.Start.Shutdown.{
  Stopping, shutdown, graceful, forced, Reader, shutdown_reader, main_reader, received, count_state,
  shutdown-ends, stopped_seen_once,
}
use vfkit.Base.Int.{pos}
use vfkit.Start.Run.{Running, Setup, run_virtual_machine, run_vfkit, starts, listens, opens}
use vfkit.Start.Finished.{run_virtual_machine-ok, run_vfkit-calls, proxy_calls, window_call}

abbrev stopping : Stopping
stopping = record { stop = ok tt }

-- The machine reports state 4, and then the time is over; 3 is the error state and 2 the stop.
shutdown-ends_example :
    let events = new_state 4 ∷ timed_out ∷ [] in
    ((shutdown stopping 3 2 events ≡ graceful) × EndsAt 3 2 events reached)
    ⊎ (shutdown stopping 3 2 events ≡ forced (ok tt))
shutdown-ends_example = shutdown-ends stopping 3 2 (new_state 4 ∷ []) []

was_forced : shutdown stopping 3 2 (new_state 4 ∷ timed_out ∷ []) ≡ forced (ok tt)
unfolding shutdown
was_forced = refl

abbrev schedule : List (Reader × ℕ)
schedule = (main_reader, 4) ∷ (shutdown_reader, 2) ∷ []

stopped_seen_once_example : wait_for_vm_state 3 2 (received main_reader schedule) ≢ reached
stopped_seen_once_example =
    stopped_seen_once 3 2 schedule (unfold count_state in omega arith)
      (unfold received wait_for_vm_state in refl)

abbrev vsock : VirtioVsock
vsock = record { port = 1234; socket_url = codes "/vsock.sock"; listen = false }

abbrev machine : VirtualMachine
machine = record {
  vcpus = 1;
  memory = 0;
  bootloader = none;
  devices = virtio_vsock vsock ∷ virtio_gpu gpu_new ∷ [];
  timesync = none;
  ignition = none;
  nested = false;
}

abbrev running : Running
running = record {
  start = ok tt;
  expose_vsock = λ v. ok tt;
  listen_network_block_devices = ok tt;
  start_graphic_application = λ w h. ok tt;
  error_state = 3;
  running = 1;
  stopped = 2;
}

run_virtual_machine-ok_example :
    (running.start ≡ ok tt)
    × (wait_for_vm_state 3 1 (new_state 1 ∷ []) ≡ reached)
    × (wait_for_vm_state 3 2 (new_state 2 ∷ []) ≡ reached)
run_virtual_machine-ok_example =
    run_virtual_machine-ok running machine.devices (new_state 1 ∷ []) (new_state 2 ∷ [])
      (unfold run_virtual_machine codes in refl)

abbrev setup : Setup
setup = record { new_virtual_machine = λ vm. ok running; new_server = λ uri. ok tt }

run_vfkit-calls_example :
    (run_vfkit setup machine true (codes "none://") (new_state 1 ∷ []) []).calls
    ≡ starts ∷ proxy_calls machine.devices ++ listens ∷ window_call true machine.devices
run_vfkit-calls_example =
    run_vfkit-calls setup machine true (codes "none://") (new_state 1 ∷ []) []
      (unfold run_vfkit text_eq codes filter_devices wait_for_vm_state in tt)

one_window : window_call true machine.devices ≡ opens (pos 800) (pos 600) ∷ []
one_window = refl
