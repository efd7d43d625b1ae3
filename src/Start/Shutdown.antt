-- ===== src/Start/Shutdown.antt =====
-- The shutdown function of `runVFKit` in cmd/vfkit/main.go, next to the wait of `runVirtualMachine`
-- for the end of the machine. Both read the states of the machine from one channel, which gives
-- each of them to one reader.
use vfkit.Base.{
  ℕ, suc, ◌+◌, ◌≤◌, Bool, true, false, List, [], ◌∷◌, ◌++◌, ◌==◌, ◌≡◌, ◌≢◌, ◌⊎◌, inl, inr, refl,
  Result, if◌then◌else◌, All, arith,
}
use vfkit.Start.Wait.{
  Event, signal, new_state, timed_out, Wait, waiting, reached, failed, wait_for_vm_state, IsIgnored,
  EndsAt, wait_for_vm_state-Waited,
}

-- `Stop` of the framework's machine
pub record Stopping : Type 0 where
  pub stop : Result (Unit {0})

-- The shutdown waits, has seen the machine stop, or has forced it with a result of `Stop`.
pub data Shutdown : Type 0 where
  pending graceful : Shutdown
  forced : Result (Unit {0}) → Shutdown

abbrev pub finish : Stopping → Wait → Shutdown
finish vm waiting = pending
finish vm reached = graceful
finish vm (failed e) = forced vm.stop

-- The shutdown function behind its request to stop, whose result is only logged. The channels of
-- the wait deliver `events`.
unfoldable pub shutdown : Stopping → ℕ → ℕ → List Event → Shutdown
unfolding wait_for_vm_state
shutdown vm error_state stopped events = finish vm (wait_for_vm_state error_state stopped events)

module _ (vm : Stopping) (error_state stopped : ℕ) where
  timeout-Ends :
      (before after : List Event)
      → wait_for_vm_state error_state stopped (before ++ timed_out ∷ after) ≢ waiting
  unfolding wait_for_vm_state
  timeout-Ends [] after e = cc
  timeout-Ends (signal s ∷ before) after e = timeout-Ends before after e
  timeout-Ends (timed_out ∷ before) after e = cc
  timeout-Ends (new_state s ∷ before) after e = ground (arith, timeout-Ends before after)

  -- Once the five seconds are over, the shutdown has ended: it has seen the stopped machine as the
  -- first event that is not ignored, or it has forced the stop.
  pub shutdown-ends :
      (before after : List Event)
      → let events = before ++ timed_out ∷ after in
        ((shutdown vm error_state stopped events ≡ graceful)
          × EndsAt error_state stopped events reached)
        ⊎ (shutdown vm error_state stopped events ≡ forced vm.stop)
  unfolding shutdown
  shutdown-ends before after =
      ended (before ++ timed_out ∷ after)
        (wait_for_vm_state error_state stopped (before ++ timed_out ∷ after)) refl
        (timeout-Ends before after)
        (wait_for_vm_state-Waited error_state stopped (before ++ timed_out ∷ after))
    where
      ended :
          (events : List Event) (w : Wait)
          → wait_for_vm_state error_state stopped events ≡ w
          → w ≢ waiting
          → ((w ≡ waiting) × All (IsIgnored error_state stopped) events)
            ⊎ EndsAt error_state stopped events w
          → ((finish vm w ≡ graceful) × EndsAt error_state stopped events reached)
            ⊎ (finish vm w ≡ forced vm.stop)
      ended events waiting e h r = absurd (h refl)
      ended events reached e h (inl (q, _)) = cc
      ended events reached e h (inr r) = inl (refl, r)
      ended events (failed x) e h r = inr refl

-- The two readers of the channel.
pub data Reader : Type 0 where
  shutdown_reader main_reader : Reader

abbrev is_reader : Reader → Reader → Bool
is_reader shutdown_reader shutdown_reader = true
is_reader main_reader main_reader = true
is_reader _ _ = false

-- What one reader receives of the values, of which each goes to one reader.
unfoldable pub received : Reader → List (Reader × ℕ) → List Event
received r [] = []
received r ((q, s) ∷ rest) =
    let more = received r rest in if is_reader r q then new_state s ∷ more else more

unfoldable pub count_state : ℕ → List (Reader × ℕ) → ℕ
count_state state [] = 0
count_state state ((q, s) ∷ rest) =
    let more = count_state state rest in if s == state then suc more else more

unfoldable count_events : ℕ → List Event → ℕ
count_events state [] = 0
count_events state (new_state s ∷ rest) =
    let more = count_events state rest in if s == state then suc more else more
count_events state (_ ∷ rest) = count_events state rest

received-sum :
    (state : ℕ) (schedule : List (Reader × ℕ))
    → count_events state (received shutdown_reader schedule)
        + count_events state (received main_reader schedule)
      ≡ count_state state schedule
unfolding received count_state count_events
received-sum state [] = refl
received-sum state ((shutdown_reader, s) ∷ rest) = ground (arith, received-sum state rest)
received-sum state ((main_reader, s) ∷ rest) = ground (arith, received-sum state rest)

reached-counts :
    (error_state state : ℕ) (events : List Event)
    → wait_for_vm_state error_state state events ≡ reached
    → 1 ≤ count_events state events
unfolding wait_for_vm_state count_events
reached-counts error_state state [] e = cc
reached-counts error_state state (signal s ∷ events) e = reached-counts error_state state events e
reached-counts error_state state (timed_out ∷ events) e = cc
reached-counts error_state state (new_state s ∷ events) e =
    ground (arith, reached-counts error_state state events)

-- If the framework reports the stopped machine once, the shutdown and the wait of
-- `runVirtualMachine` do not both see it, whichever way the channel gives the states to the two.
pub stopped_seen_once :
    (error_state stopped : ℕ) (schedule : List (Reader × ℕ))
    → count_state stopped schedule ≤ 1
    → wait_for_vm_state error_state stopped (received shutdown_reader schedule) ≡ reached
    → wait_for_vm_state error_state stopped (received main_reader schedule) ≢ reached
stopped_seen_once error_state stopped schedule once seen also = omega (
  arith,
  received-sum stopped schedule,
  reached-counts error_state stopped (received shutdown_reader schedule) seen,
  reached-counts error_state stopped (received main_reader schedule) also,
)
