-- ===== src/Marshal/Machine/Order/Keys.antt =====
-- Two entries with different keys can be read in either order.
use vfkit.Base.{◌≡◌, ◌≢◌, refl, sym, ap, ◌∙◌, [], Result, ok, err, ◌>>=◌, arith, ◌⊎◌, inl, inr}
use vfkit.Text.{Text, text_eq_iff, codes, is}
use vfkit.Config.Machine.{VirtualMachine}
use vfkit.Json.{Json, null, Member}
use vfkit.Marshal.Machine.{
  MachineField, vcpus, memory_bytes, bootloader, timesync, devices, ignition, other, machine_field,
  unmarshal_field, unmarshal_entry,
}
use vfkit.Marshal.Machine.Order.Fields.{SameValues, fields-swap}

-- The name of a field
abbrev name : MachineField → Text
name vcpus = codes "vcpus"
name memory_bytes = codes "memoryBytes"
name bootloader = codes "bootloader"
name timesync = codes "timesync"
name devices = codes "devices"
name ignition = codes "ignition"
name other = []

machine_field-name : (key : Text) → machine_field key ≢ other → key ≡ name (machine_field key)
unfolding machine_field is
machine_field-name key h = ground (
  arith,
  text_eq_iff key (codes "vcpus"),
  text_eq_iff key (codes "memoryBytes"),
  text_eq_iff key (codes "bootloader"),
  text_eq_iff key (codes "timesync"),
  text_eq_iff key (codes "devices"),
  text_eq_iff key (codes "ignition"),
)

other-cases : (f : MachineField) → (f ≡ other) ⊎ (f ≢ other)
other-cases other = inl refl
other-cases vcpus = inr (λ e. cc)
other-cases memory_bytes = inr (λ e. cc)
other-cases bootloader = inr (λ e. cc)
other-cases timesync = inr (λ e. cc)
other-cases devices = inr (λ e. cc)
other-cases ignition = inr (λ e. cc)

-- Of two different keys, the fields differ or are not read.
machine_field-differ :
    (k k' : Text)
    → k ≢ k'
    → (machine_field k ≢ machine_field k')
      ⊎ ((machine_field k ≡ other) × (machine_field k' ≡ other))
machine_field-differ k k' h = elim (other-cases (machine_field k)) [
  | inl o ↦ elim (other-cases (machine_field k')) [
    | inl o' ↦ inr (o, o')
    | inr n' ↦ inl (λ e. n' (sym e ∙ o))
  ]
  | inr n ↦ elim (other-cases (machine_field k')) [
    | inl o' ↦ inl (λ e. n (e ∙ o'))
    | inr n' ↦ inl (λ e. h (machine_field-name k n ∙ (ap name e ∙ sym (machine_field-name k' n'))))
  ]
]

-- One entry after the other
abbrev pub both : Member → Member → VirtualMachine → Result VirtualMachine
both m m' vm = unmarshal_entry vm m >>= λ t. unmarshal_entry t m'

pub SameValues-refl {ℓ} : {A : Type ℓ} (r : Result A) → SameValues r r
SameValues-refl r v = (λ e. e, λ e. e)

pub SameValues-sym {ℓ} : {A : Type ℓ} {r s : Result A} → SameValues r s → SameValues s r
SameValues-sym h v = ((h v).1, (h v).0)

pub SameValues-trans {ℓ} :
    {A : Type ℓ} {r s t : Result A} → SameValues r s → SameValues s t → SameValues r t
SameValues-trans h k v = (λ e. (k v).0 ((h v).0 e), λ e. (h v).1 ((k v).1 e))

pub bind-ok {ℓ} : {A : Type ℓ} (r : Result A) → (r >>= λ a. ok a) ≡ r
bind-ok (ok a) = refl
bind-ok (err e) = refl

others-swap :
    (f g : MachineField) (v w : Json) (vm : VirtualMachine)
    → f ≡ other
    → g ≡ other
    → SameValues
        (unmarshal_field f v vm >>= unmarshal_field g w)
        (unmarshal_field g w vm >>= unmarshal_field f v)
unfolding unmarshal_field
others-swap other other v w vm e e' = SameValues-refl (ok vm)
others-swap _ _ v w vm e e' = cc

keys-swap :
    (k k' : Text) (v w : Json) (vm : VirtualMachine)
    → k ≢ k'
    → SameValues
        (unmarshal_field (machine_field k) v vm >>= unmarshal_field (machine_field k') w)
        (unmarshal_field (machine_field k') w vm >>= unmarshal_field (machine_field k) v)
keys-swap k k' v w vm h = elim (machine_field-differ k k' h) [
  | inl d ↦ fields-swap (machine_field k) (machine_field k') v w vm d
  | inr (o, o') ↦ others-swap (machine_field k) (machine_field k') v w vm o o'
]

pub entries-swap :
    (m m' : Member) (vm : VirtualMachine) → m.0 ≢ m'.0 → SameValues (both m m' vm) (both m' m vm)
unfolding unmarshal_entry
entries-swap (k, null) (k', null) vm h = SameValues-refl (ok vm)
entries-swap (k, null) (k', w) vm h =
    rw (bind-ok (unmarshal_field (machine_field k') w vm))
      (SameValues-refl (unmarshal_field (machine_field k') w vm))
entries-swap (k, v) (k', null) vm h =
    rw (bind-ok (unmarshal_field (machine_field k) v vm))
      (SameValues-refl (unmarshal_field (machine_field k) v vm))
entries-swap (k, v) (k', w) vm h = keys-swap k k' v w vm h
