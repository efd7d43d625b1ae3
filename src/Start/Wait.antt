-- ===== src/Start/Wait.antt =====
-- `waitForVMState` of cmd/vfkit/main.go: a loop over what its channels deliver. A wait with no
-- timeout has a nil channel, which delivers nothing. A state of the framework's virtual machine is
-- a number, and the number of the state of an error is a parameter.
use vfkit.Base.{
  ℕ, Bool-cases, List, [], ◌∷◌, ◌++◌, ◌==◌, ==_iff, ◌≡◌, ◌≢◌, ◌⊎◌, inl, inr, refl, ap, Error,
  errorf, if◌then◌else◌, All, arith,
}

pub data Event : Type 0 where
  signal : ℕ → Event
  new_state : ℕ → Event
  timed_out : Event

-- No event is left, the state is reached, or the wait fails.
pub data Wait : Type 0 where
  waiting reached : Wait
  failed : Error → Wait

abbrev pub broken : Wait
broken = failed (errorf "hypervisor virtualization error" [])

abbrev pub expired : Wait
expired = failed (errorf "timeout waiting for VM state" [])

module _ (error_state : ℕ) where
  unfoldable pub wait_for_vm_state : ℕ → List Event → Wait
  wait_for_vm_state state [] = waiting
  wait_for_vm_state state (signal s ∷ events) = wait_for_vm_state state events
  wait_for_vm_state state (new_state s ∷ events) =
      let rest = wait_for_vm_state state events in
      if s == state then reached else if s == error_state then broken else rest
  wait_for_vm_state state (timed_out ∷ events) = expired

  -- A signal, or another state that is no error.
  abbrev pub IsIgnored : ℕ → Event → Type 0
  IsIgnored state (signal s) = Unit
  IsIgnored state (new_state s) = (s ≢ state) × (s ≢ error_state)
  IsIgnored state timed_out = ⊥

  -- An event that ends the wait, and how it does.
  abbrev pub Ends : ℕ → Event → Wait → Type 0
  Ends state (signal s) w = ⊥
  Ends state (new_state s) w =
      ((s ≡ state) × (w ≡ reached)) ⊎ ((s ≢ state) × (s ≡ error_state) × (w ≡ broken))
  Ends state timed_out w = w ≡ expired

  -- The events up to the one that ends the wait.
  pub record EndsAt (state : ℕ) (events : List Event) (w : Wait) : Type 0 where
    pub before : List Event
    pub event : Event
    pub after : List Event
    pub splits : events ≡ before ++ event ∷ after
    pub ignored : All (IsIgnored state) before
    pub ends : Ends state event w

  later :
      (state : ℕ) (e : Event) (events : List Event) (w : Wait)
      → IsIgnored state e
      → EndsAt state events w
      → EndsAt state (e ∷ events) w
  later state e events w h r = record {
    before = e ∷ r.before;
    event = r.event;
    after = r.after;
    splits = ap (λ (l : List Event). e ∷ l) r.splits;
    ignored = (h, r.ignored);
    ends = r.ends;
  }

  at_once :
      (state : ℕ) (e : Event) (events : List Event) (w : Wait)
      → Ends state e w
      → EndsAt state (e ∷ events) w
  at_once state e events w h = record {
    before = [];
    event = e;
    after = events;
    splits = refl;
    ignored = tt;
    ends = h;
  }

  abbrev Waited : ℕ → List Event → Wait → Type 0
  Waited state events w = ((w ≡ waiting) × All (IsIgnored state) events) ⊎ EndsAt state events w

  skip :
      (state : ℕ) (e : Event) (events : List Event) (w : Wait)
      → IsIgnored state e
      → Waited state events w
      → Waited state (e ∷ events) w
  skip state e events w h (inl (q, t)) = inl (q, (h, t))
  skip state e events w h (inr r) = inr (later state e events w h r)

  -- The wait goes on as long as there are signals and other states that are no errors. It ends with
  -- the first event that is none of these: well with the state that is waited for, even if that is
  -- the error state, and with an error at the error state or at the timeout.
  pub wait_for_vm_state-Waited :
      (state : ℕ) (events : List Event)
      → ((wait_for_vm_state state events ≡ waiting) × All (IsIgnored state) events)
        ⊎ EndsAt state events (wait_for_vm_state state events)
  unfolding wait_for_vm_state
  wait_for_vm_state-Waited state [] = inl (refl, tt)
  wait_for_vm_state-Waited state (signal s ∷ events) =
      skip state (signal s) events _ tt (wait_for_vm_state-Waited state events)
  wait_for_vm_state-Waited state (timed_out ∷ events) = inr (at_once state timed_out events _ refl)
  wait_for_vm_state-Waited state (new_state s ∷ events) = elim (Bool-cases (s == state)) [
    | inl e ↦ rw e (inr (at_once state (new_state s) events _ (inl ((==_iff s state).0 e, refl))))
    | inr e ↦ elim (Bool-cases (s == error_state)) [
      | inl f ↦
          rw (e, f)
            (inr (at_once state (new_state s) events _ (inr (ground arith, ground arith, refl))))
      | inr f ↦
          rw (e, f)
            (skip state (new_state s) events _ (ground arith, ground arith)
              (wait_for_vm_state-Waited state events))
    ]
  ]
