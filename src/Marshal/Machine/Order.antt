-- ===== src/Marshal/Machine/Order.antt =====
-- A machine is read to the same value whichever way the map of its members is listed.
pub mod Fields
pub mod Keys
use mathlib.Core.List.{Permᴰ}
use vfkit.Base.{
  ◌≡◌, ◌≢◌, ◌↔◌, refl, sym, ap, ◌∙◌, subst, List, [], ◌∷◌, Result, ok, err, ◌>>=◌, >>=-eq-ok,
  for_each, Bool, true, false, ◌||◌, arith, ◌⊎◌, inl, inr, Bool-cases,
}
use vfkit.Text.{Text, text_eq, text_eq_iff, codes, is}
use vfkit.Config.Machine.{VirtualMachine}
use vfkit.Json.{Json, null, Member, object, members}
use vfkit.Marshal.Machine.{
  MachineField, vcpus, memory_bytes, bootloader, timesync, devices, ignition, other, machine_field,
  unmarshal_field, unmarshal_entry, unmarshal_entries, has_key, entries, input_map,
  unmarshal_machine,
}
use Fields.{SameValues, SameValues-bind, SameValues-next, fields-swap}
use Keys.{SameValues-refl, SameValues-sym, SameValues-trans, both, entries-swap}

-- No key stands twice.
abbrev pub IsMap : List Member → Type 0
IsMap [] = Unit
IsMap (m ∷ ms) = (has_key m.0 ms ≡ false) × IsMap ms

key-eq : {m m' : Member} (k : Text) → m ≡ m' → text_eq k m.0 ≡ text_eq k m'.0
key-eq k e = ap (λ m. text_eq k m.0) e

has_key-perm : {l l' : List Member} (k : Text) → Permᴰ l l' → has_key k l ≡ has_key k l'
unfolding has_key
has_key-perm k Permᴰ.nil = refl
has_key-perm k (Permᴰ.cons e p) = rw (key-eq k e, has_key-perm k p) refl
has_key-perm k (Permᴰ.swap e e') = rw (key-eq k e, key-eq k e') (ground arith)
has_key-perm k (Permᴰ.trans p q) = has_key-perm k p ∙ has_key-perm k q

text_eq_comm : (s t : Text) → text_eq s t ≡ text_eq t s
text_eq_comm s t = ground (arith, text_eq_iff s t, text_eq_iff t s)

IsMap-swap : (m m' : Member) (l : List Member) → IsMap (m ∷ m' ∷ l) → IsMap (m' ∷ m ∷ l)
unfolding has_key
IsMap-swap m m' l h = ground (arith, text_eq_comm m.0 m'.0)

IsMap-perm : {l l' : List Member} → Permᴰ l l' → IsMap l → IsMap l'
IsMap-perm Permᴰ.nil h = tt
IsMap-perm (Permᴰ.cons {l₁ = l} e p) (h, t) =
    (sym (has_key-perm _ p) ∙ subst (λ m. has_key m.0 l ≡ false) e h, IsMap-perm p t)
IsMap-perm (Permᴰ.trans p q) h = IsMap-perm q (IsMap-perm p h)
IsMap-perm (Permᴰ.swap {a = a} {b = b} {b' = b'} {l = l} e e') h =
    subst (λ m. IsMap (m ∷ b' ∷ l)) e' (subst (λ m. IsMap (b ∷ m ∷ l)) e (IsMap-swap a b l h))

keys-differ : (m m' : Member) (l : List Member) → IsMap (m ∷ m' ∷ l) → m.0 ≢ m'.0
unfolding has_key
keys-differ m m' l h = ground (arith, text_eq_iff m.0 m'.0)

>>=-assoc {ℓ} :
    {A : Type ℓ} (r : Result A) (f g : A → Result A) → (r >>= λ a. f a >>= g) ≡ ((r >>= f) >>= g)
>>=-assoc (ok a) f g = refl
>>=-assoc (err e) f g = refl

front-swap :
    (m m' : Member) (l : List Member) (vm : VirtualMachine)
    → m.0 ≢ m'.0
    → SameValues (unmarshal_entries vm (m ∷ m' ∷ l)) (unmarshal_entries vm (m' ∷ m ∷ l))
unfolding unmarshal_entries for_each
front-swap m m' l vm h =
    let rest = λ (t : VirtualMachine). unmarshal_entries t l in
    rw
      (
        >>=-assoc (unmarshal_entry vm m) (λ t. unmarshal_entry t m') rest,
        >>=-assoc (unmarshal_entry vm m') (λ t. unmarshal_entry t m) rest,
      )
      (SameValues-bind (both m m' vm) (both m' m vm) rest (entries-swap m m' vm h))

pub unmarshal_entries-perm :
    {l l' : List Member} (vm : VirtualMachine)
    → Permᴰ l l'
    → IsMap l
    → SameValues (unmarshal_entries vm l) (unmarshal_entries vm l')
unfolding unmarshal_entries for_each
unmarshal_entries-perm vm Permᴰ.nil h = SameValues-refl _
unmarshal_entries-perm vm (Permᴰ.cons {a = a} {l₁ = l} {l₂ = l'} e p) (h, t) =
    subst (λ m. SameValues (unmarshal_entries vm (a ∷ l)) (unmarshal_entries vm (m ∷ l'))) e
      (SameValues-next (unmarshal_entry vm a) (λ u. unmarshal_entries u l)
        (λ u. unmarshal_entries u l') (λ u. unmarshal_entries-perm u p t))
unmarshal_entries-perm vm (Permᴰ.swap {a = a} {b = b} {b' = b'} {l = l} e e') h =
    subst (λ m. SameValues (unmarshal_entries vm (a ∷ b ∷ l)) (unmarshal_entries vm (m ∷ b' ∷ l)))
      e'
      (subst (λ m. SameValues (unmarshal_entries vm (a ∷ b ∷ l)) (unmarshal_entries vm (b ∷ m ∷ l)))
        e (front-swap a b l vm (keys-differ a b l h)))
unmarshal_entries-perm vm (Permᴰ.trans p q) h =
    SameValues-trans (unmarshal_entries-perm vm p h) (unmarshal_entries-perm vm q (IsMap-perm p h))

has_key-entries : (k : Text) (l : List Member) → has_key k l ≡ false → has_key k (entries l) ≡ false
unfolding has_key entries
has_key-entries k [] h = refl
has_key-entries k (m ∷ l) h = ground (arith, has_key-entries k l)

entries-IsMap : (l : List Member) → IsMap (entries l)
unfolding entries
entries-IsMap [] = tt
entries-IsMap (m ∷ l) = elim (Bool-cases (has_key m.0 l)) [
  | inl e ↦ rw e (entries-IsMap l)
  | inr e ↦ rw e (has_key-entries m.0 l e, entries-IsMap l)
]

-- Any two orders of the map of the members read the same machine, or no order reads one.
pub unmarshal_machine-order :
    (order order' : List Member → List Member) (raw : Json) (vm : VirtualMachine)
    → ((l : List Member) → Permᴰ l (order l))
    → ((l : List Member) → Permᴰ l (order' l))
    → (vm' : VirtualMachine)
    → (unmarshal_machine order raw vm ≡ ok vm') ↔ (unmarshal_machine order' raw vm ≡ ok vm')
unfolding unmarshal_machine input_map
unmarshal_machine-order order order' (object l) vm p p' =
    let l' = entries (members l) in
    let h = entries-IsMap (members l) in
    SameValues-trans (SameValues-sym (unmarshal_entries-perm vm (p l') h))
      (unmarshal_entries-perm vm (p' l') h)
unmarshal_machine-order order order' null vm p p' =
    SameValues-trans (SameValues-sym (unmarshal_entries-perm vm (p []) tt))
      (unmarshal_entries-perm vm (p' []) tt)
unmarshal_machine-order order order' _ vm p p' = SameValues-refl _
