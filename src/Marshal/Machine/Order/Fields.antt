-- ===== src/Marshal/Machine/Order/Fields.antt =====
-- Two different fields of the machine can be read in either order.
use vfkit.Base.{
  ℕ, ◌≡◌, ◌≢◌, ◌↔◌, refl, sym, ap, ◌∙◌, List, Result, ok, err, ◌>>=◌, >>=-eq-ok, Option, some, none,
}
use vfkit.Config.Bootloader.{Bootloader}
use vfkit.Config.Device.{VirtioDevice}
use vfkit.Config.TimeSync.{TimeSync, Ignition}
use vfkit.Config.Machine.{VirtualMachine}
use vfkit.Json.{Json}
use vfkit.Json.Struct.{unmarshal, read_uint}
use vfkit.Marshal.ReadDevices.{unmarshal_devices}
use vfkit.Marshal.Bootloaders.{unmarshal_bootloader, unmarshal_ignition}
use vfkit.Marshal.Fields.{timesync_fields}
use vfkit.Marshal.Machine.{
  MachineField, vcpus, memory_bytes, bootloader, timesync, devices, ignition, other,
  unmarshal_field, or_type_error, timesync_or_zero, ignition_or,
}

-- The same results, but for the error.
abbrev pub SameValues {ℓ} : {A : Type ℓ} → Result A → Result A → Type ℓ
SameValues {A = A} r s = (a : A) → (r ≡ ok a) ↔ (s ≡ ok a)

pub SameValues-bind {ℓ κ} :
    {A : Type ℓ} {B : Type κ} (r s : Result A) (next : A → Result B)
    → SameValues r s
    → SameValues (r >>= next) (s >>= next)
SameValues-bind r s next same b = (
  λ e. let (a, made, rest) = >>=-eq-ok r next e in rw ((same a).0 made) rest,
  λ e. let (a, made, rest) = >>=-eq-ok s next e in rw ((same a).1 made) rest,
)

pub SameValues-next {ℓ κ} :
    {A : Type ℓ} {B : Type κ} (r : Result A) (f g : A → Result B)
    → ((a : A) → SameValues (f a) (g a))
    → SameValues (r >>= f) (r >>= g)
SameValues-next (ok a) f g same b = same a b
SameValues-next (err e) f g same b = (λ p. cc, λ p. cc)

-- What a field reads, and what that does to the machine.
abbrev Read : MachineField → Type 0
Read vcpus = ℕ
Read memory_bytes = ℕ
Read bootloader = Bootloader
Read timesync = TimeSync
Read devices = List VirtioDevice
Read ignition = Option Ignition
Read other = Unit

abbrev keep_or : Option Ignition → Option Ignition → Option Ignition
keep_or old none = old
keep_or old (some i) = some i

abbrev set : (f : MachineField) → Read f → VirtualMachine → VirtualMachine
set vcpus n vm = record vm { vcpus = n }
set memory_bytes n vm = record vm { memory = n }
set bootloader b vm = record vm { bootloader = some b }
set timesync t vm = record vm { timesync = some t }
set devices ds vm = record vm { devices = ds }
set ignition i vm = record vm { ignition = keep_or vm.ignition i }
set other _ vm = vm

set_comm :
    (f g : MachineField) (a : Read f) (b : Read g) (vm : VirtualMachine)
    → f ≢ g
    → set f a (set g b vm) ≡ set g b (set f a vm)
set_comm vcpus vcpus a b vm h = absurd (h refl)
set_comm memory_bytes memory_bytes a b vm h = absurd (h refl)
set_comm bootloader bootloader a b vm h = absurd (h refl)
set_comm timesync timesync a b vm h = absurd (h refl)
set_comm devices devices a b vm h = absurd (h refl)
set_comm ignition ignition a b vm h = absurd (h refl)
set_comm _ _ a b vm h = refl

abbrev optional {ℓ} : {A : Type ℓ} → Result A → Option A
optional (ok a) = some a
optional (err e) = none

unfoldable read : (f : MachineField) → Json → VirtualMachine → Result (Read f)
unfolding unmarshal unmarshal_bootloader unmarshal_devices unmarshal_ignition
read vcpus raw vm = or_type_error raw (read_uint 64 raw)
read memory_bytes raw vm = or_type_error raw (read_uint 64 raw)
read bootloader raw vm = unmarshal_bootloader raw
read timesync raw vm = unmarshal timesync_fields raw (timesync_or_zero vm.timesync)
read devices raw vm = unmarshal_devices raw
read ignition raw vm = ok (optional (unmarshal_ignition raw))
read other raw vm = ok tt

read-set :
    (g f : MachineField) (a : Read f) (raw : Json) (vm : VirtualMachine)
    → f ≢ g
    → read g raw (set f a vm) ≡ read g raw vm
unfolding read
read-set timesync timesync a raw vm h = absurd (h refl)
read-set _ _ a raw vm h = refl

ignition_or-eq-keep_or :
    (old : Option Ignition) (r : Result Ignition) → ignition_or old r ≡ keep_or old (optional r)
ignition_or-eq-keep_or old (ok i) = refl
ignition_or-eq-keep_or old (err e) = refl

unmarshal_field-eq-set :
    (f : MachineField) (raw : Json) (vm : VirtualMachine)
    → unmarshal_field f raw vm ≡ (read f raw vm >>= λ a. ok (set f a vm))
unfolding unmarshal_field read
unmarshal_field-eq-set ignition raw vm =
    ap (λ i. ok (record vm { ignition = i }))
      (ignition_or-eq-keep_or vm.ignition (unmarshal_ignition raw))
unmarshal_field-eq-set _ raw vm = refl

-- Two steps, of which each reads a value that the other does not change.
steps-swap {ℓ κ μ} :
    {A : Type ℓ} {B : Type κ} {S : Type μ} (r : Result A) (s : Result B) (f : A → S) (g : B → S)
    (both both' : A → B → S) (next next' : S → Result S)
    → ((a : A) (b : B) → both a b ≡ both' a b)
    → ((a : A) → next (f a) ≡ (s >>= λ b. ok (both a b)))
    → ((b : B) → next' (g b) ≡ (r >>= λ a. ok (both' a b)))
    → SameValues ((r >>= λ a. ok (f a)) >>= next) ((s >>= λ b. ok (g b)) >>= next')
steps-swap (ok a) (ok b) f g h h' n n' c e e' v = rw (e a, e' b, c a b) (λ p. p, λ p. p)
steps-swap (ok a) (err x) f g h h' n n' c e e' v = rw (e a) (λ p. cc, λ p. cc)
steps-swap (err x) (ok b) f g h h' n n' c e e' v = rw (e' b) (λ p. cc, λ p. cc)
steps-swap (err x) (err y) f g h h' n n' c e e' v = (λ p. cc, λ p. cc)

pub fields-swap :
    (f g : MachineField) (v w : Json) (vm : VirtualMachine)
    → f ≢ g
    → SameValues
        (unmarshal_field f v vm >>= unmarshal_field g w)
        (unmarshal_field g w vm >>= unmarshal_field f v)
fields-swap f g v w vm h =
    rw (unmarshal_field-eq-set f v vm, unmarshal_field-eq-set g w vm)
      (steps-swap (read f v vm) (read g w vm) (λ a. set f a vm) (λ b. set g b vm)
        (λ a b. set g b (set f a vm)) (λ a b. set f a (set g b vm)) (unmarshal_field g w)
        (unmarshal_field f v) (λ a b. sym (set_comm f g a b vm h))
        (λ a.
          unmarshal_field-eq-set g w (set f a vm)
          ∙ ap (λ r. r >>= λ b. ok (set g b (set f a vm))) (read-set g f a w vm h))
        (λ b.
          unmarshal_field-eq-set f v (set g b vm)
          ∙ ap (λ r. r >>= λ a. ok (set f a (set g b vm))) (read-set f g b v vm (λ e. h (sym e)))))
