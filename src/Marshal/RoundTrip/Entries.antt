-- ===== src/Marshal/RoundTrip/Entries.antt =====
-- The entries of the map, one by one.
use vfkit.Base.{
  ℕ, ◌<◌, ◌^◌, ◌≡◌, refl, ap, ◌∙◌, List, ◌∷◌, ◌++◌, Option, none, some, ok, ◌>>=◌, for_each, Bool,
  true, false, All,
}
use vfkit.Text.{Text, codes}
use vfkit.Config.Bootloader.{Bootloader, linux, efi, macos}
use vfkit.Config.Device.{VirtioDevice}
use vfkit.Config.TimeSync.{TimeSync, Ignition}
use vfkit.Config.Machine.{VirtualMachine}
use vfkit.Json.{Json, Fields, array, object, Member, to_elements}
use vfkit.Json.Members.{member, unsigned, unless}
use vfkit.Json.ReadBack.{read_uint-format}
use vfkit.Marshal.Devices.{with_kind}
use vfkit.Marshal.Bootloaders.{
  marshal_bootloader, unmarshal_bootloader, marshal_linux, marshal_efi, marshal_macos,
  marshal_ignition,
}
use vfkit.Marshal.Machine.{
  marshal_devices, unmarshal_entry, unmarshal_entries, bootloader_value, timesync_value,
  ignition_value, is_none, machine_field, unmarshal_field, ignition_or,
}
use vfkit.Marshal.RoundTrip.{IsWritable}
use vfkit.Marshal.RoundTrip.Bootloaders.{
  IsWritableBootloader, bootloader-ReadsBack, timesync-read, IsIgnition, without_port,
  ignition-read,
}
use vfkit.Marshal.RoundTrip.Devices.{json_devices, unmarshal_devices-marshal_devices}

pub read-entry :
    (m : Member) (ms : List Member) (s t : VirtualMachine)
    → unmarshal_entry s m ≡ ok t
    → unmarshal_entries s (m ∷ ms) ≡ unmarshal_entries t ms
unfolding unmarshal_entries for_each
read-entry m ms s t e = ap (λ r. r >>= λ u. unmarshal_entries u ms) e

pub read-unless :
    (b : Bool) (m : Member) (ms : List Member) (s t : VirtualMachine)
    → (b ≡ true → s ≡ t)
    → (b ≡ false → unmarshal_entry s m ≡ ok t)
    → unmarshal_entries s (unless b m ++ ms) ≡ unmarshal_entries t ms
unfolding unless
read-unless true m ms s t e h = ap (λ u. unmarshal_entries u ms) (e refl)
read-unless false m ms s t e h = read-entry m ms s t (h refl)

pub entry-object :
    (key : Text) (raw : Json) (fs : Fields) (s : VirtualMachine)
    → raw ≡ object fs
    → unmarshal_entry s (key, raw) ≡ unmarshal_field (machine_field key) raw s
unfolding unmarshal_entry
entry-object key (object l) fs s e = refl
entry-object key _ fs s e = cc

pub vcpus-entry :
    (n : ℕ) (s : VirtualMachine)
    → n < 2 ^ 64
    → unmarshal_entry s (member "vcpus" (unsigned n)) ≡ ok (record s { vcpus = n })
unfolding unmarshal_entry codes
vcpus-entry n s h = rw (read_uint-format 64 n h)

pub memory-entry :
    (n : ℕ) (s : VirtualMachine)
    → n < 2 ^ 64
    → unmarshal_entry s (member "memoryBytes" (unsigned n)) ≡ ok (record s { memory = n })
unfolding unmarshal_entry codes
memory-entry n s h = rw (read_uint-format 64 n h)

-- A bootloader that has a kind, or none
abbrev pub IsLoadable : Option Bootloader → Type 0
IsLoadable none = Unit
IsLoadable (some (macos b)) = ⊥
IsLoadable (some b) = IsWritableBootloader b

pub marshal_bootloader-object :
    (b : Bootloader) → (fs : Fields) × (marshal_bootloader b ≡ object fs)
unfolding marshal_bootloader marshal_linux marshal_efi marshal_macos with_kind
marshal_bootloader-object (linux b) = (_, refl)
marshal_bootloader-object _ = (_, refl)

pub unmarshal_bootloader-IsLoadable :
    (b : Bootloader) → IsLoadable (some b) → unmarshal_bootloader (marshal_bootloader b) ≡ ok b
unmarshal_bootloader-IsLoadable (linux b) h = bootloader-ReadsBack (linux b) h
unmarshal_bootloader-IsLoadable (efi b) h = bootloader-ReadsBack (efi b) h
unmarshal_bootloader-IsLoadable (macos b) h = absurd h

pub bootloader-entry :
    (b : Option Bootloader) (s : VirtualMachine)
    → IsLoadable b
    → unmarshal_entry (record s { bootloader = none }) (member "bootloader" (bootloader_value b))
      ≡ ok (record s { bootloader = b })
bootloader-entry none s h = unfold unmarshal_entry in refl
bootloader-entry (some b) s h =
    let (fs, is_object) = marshal_bootloader-object b in
    let start = record s { bootloader = none } in
    entry-object (codes "bootloader") (marshal_bootloader b) fs start is_object
    ∙ unfold codes machine_field unmarshal_field in
      ap (λ r. r >>= λ v. ok (record s { bootloader = some v }))
        (unmarshal_bootloader-IsLoadable b h)

pub devices-entry :
    (ds : List VirtioDevice) (s : VirtualMachine)
    → All IsWritable ds
    → unmarshal_entry s (member "devices" (array (to_elements (marshal_devices ds))))
      ≡ ok (record s { devices = json_devices ds })
unfolding unmarshal_entry codes
devices-entry ds s h =
    ap (λ r. r >>= λ v. ok (record s { devices = v })) (unmarshal_devices-marshal_devices ds h)

abbrev pub IsSynced : Option TimeSync → Type 0
IsSynced none = Unit
IsSynced (some ts) = ts.vsock_port < 2 ^ 32

pub timesync-entry :
    (ts : Option TimeSync) (s : VirtualMachine)
    → IsSynced ts
    → is_none ts ≡ false
    → unmarshal_entry (record s { timesync = none }) (member "timesync" (timesync_value ts))
      ≡ ok (record s { timesync = ts })
unfolding unmarshal_entry codes
timesync-entry none s h e = cc
timesync-entry (some ts) s h e =
    ap (λ r. r >>= λ v. ok (record s { timesync = some v })) (timesync-read ts h)

abbrev pub IsIgnited : Option Ignition → Type 0
IsIgnited none = Unit
IsIgnited (some i) = IsIgnition i

abbrev pub json_ignition : Option Ignition → Option Ignition
json_ignition none = none
json_ignition (some i) = some (without_port i)

pub ignition-entry :
    (i : Option Ignition) (s : VirtualMachine)
    → IsIgnited i
    → is_none i ≡ false
    → unmarshal_entry (record s { ignition = none }) (member "ignition" (ignition_value i))
      ≡ ok (record s { ignition = json_ignition i })
unfolding unmarshal_entry codes
ignition-entry none s h e = cc
ignition-entry (some i) s h e =
    unfold marshal_ignition with_kind in
    ap (λ r. ok (record s { ignition = ignition_or none r })) (ignition-read i h)
