-- ===== src/Rest/States.antt =====
-- Requests to change the state of the machine.
use vfkit.Base.{
  true, false, Option, some, none, ◌∷◌, [], ◌≡◌, ◌≢◌, inl, inr, Error, errorf, Result, ok, err,
  Bool-cases, String, subst, sym,
}
use vfkit.Text.{Text, codes, is, text_eq_iff}
use vfkit.Rest.{
  VzVirtualMachine, Response, accepted, answer, without_flag, change_state, set_vm_state,
}

module _ {ℓ} {State : Type ℓ} (vm : VzVirtualMachine State) where
  -- The operation of each state that can be asked for, with its outcome.
  pub data Performs : Text → State → State × Option Error → Type ℓ where
    pauses : (s : State) → Performs (codes "Pause") s (vm.pause s)
    resumes : (s : State) → Performs (codes "Resume") s (vm.resume s)
    asks_to_stop : (s : State) → Performs (codes "Stop") s (without_flag (vm.request_stop s))
    stops : (s : State) → Performs (codes "HardStop") s (vm.stop s)

  abbrev pub IsUnknown : Text → Type 0
  IsUnknown name =
      (name ≢ codes "Pause")
      × (name ≢ codes "Resume")
      × (name ≢ codes "Stop")
      × (name ≢ codes "HardStop")

  -- A request that is no state is answered by 400 and an unknown state by 500, and neither touches
  -- the machine; the others perform their one operation and are answered by 202, or by 500 and the
  -- error of the operation.
  pub data Answers : Result Text → State → State × Response → Type ℓ where
    rejected :
        (e : Error) (s : State) → Answers (err e) s (s, record { status = 400; error = some e })
    unknown :
        (name : Text) (s : State)
        → IsUnknown name
        → Answers (ok name) s (
          s,
          record { status = 500; error = some (errorf "invalid new VMState: %s" (name ∷ [])) },
        )
    performed :
        (name : Text) (s t : State) → Performs name s (t, none) → Answers (ok name) s (t, accepted)
    failed :
        (name : Text) (s t : State) (e : Error)
        → Performs name s (t, some e)
        → Answers (ok name) s (t, record { status = 500; error = some e })

  answered :
      (name : Text) (s : State) (r : State × Option Error)
      → Performs name s r
      → Answers (ok name) s (r.0, answer r.1)
  answered name s (t, none) p = performed name s t p
  answered name s (t, some e) p = failed name s t e p

  is_named :
      (name : Text) (state : String) (s : State) (r : State × Option Error)
      → is name state ≡ true
      → Performs (codes state) s r
      → Performs name s r
  unfolding is
  is_named name state s r e p =
      subst (λ (n : Text). Performs n s r) (sym ((text_eq_iff name (codes state)).0 e)) p

  is_not_named : (name : Text) (state : String) → is name state ≡ false → name ≢ codes state
  unfolding is
  is_not_named name state e p = cc ((text_eq_iff name (codes state)).1 p)

  -- A request that is no state is answered by 400 and an unknown state by 500, and neither touches
  -- the machine; the others perform their one operation and are answered by 202, or by 500 and the
  -- error of the operation.
  pub set_vm_state-Answers :
      (body : Result Text) (s : State) → Answers body s (set_vm_state vm body s)
  unfolding set_vm_state change_state
  set_vm_state-Answers (err e) s = rejected e s
  set_vm_state-Answers (ok name) s = elim (Bool-cases (is name "Pause")) [
    | inl e ↦ rw e (answered name s _ (is_named name "Pause" s _ e (pauses s)))
    | inr e ↦ rw e (elim (Bool-cases (is name "Resume")) [
      | inl f ↦ rw f (answered name s _ (is_named name "Resume" s _ f (resumes s)))
      | inr f ↦ rw f (elim (Bool-cases (is name "Stop")) [
        | inl g ↦ rw g (answered name s _ (is_named name "Stop" s _ g (asks_to_stop s)))
        | inr g ↦ rw g (elim (Bool-cases (is name "HardStop")) [
          | inl h ↦ rw h (answered name s _ (is_named name "HardStop" s _ h (stops s)))
          | inr h ↦ rw h (
              unknown name s (
                is_not_named name "Pause" e,
                is_not_named name "Resume" f,
                is_not_named name "Stop" g,
                is_not_named name "HardStop" h,
              ))
        ])
      ])
    ])
  ]
