-- ===== src/Config/Machine/Devices.antt =====
-- Devices that are added from command lines.
use vfkit.Base.{
  some, none, List, [], ◌∷◌, ◌++◌, ◌≡◌, ◌⊎◌, refl, ◌∙◌, sym, ap, ok, err, Error, Result-cases, inl,
  inr, append_assoc, append-nil, All,
}
use mathlib.Core.List.{map}
use vfkit.Text.{Text, codes}
use vfkit.Config.Device.{VirtioDevice, device_from_cmd_line}
use vfkit.Config.Device.Disk.{FileHeader}
use vfkit.Config.Device.RoundTrip.{IsPrintable, canonical, device-ReadsAs}
use vfkit.Config.Machine.{
  VirtualMachine, add_devices, add_devices_from_cmd_line, devices_to_cmd_line,
}

-- `opts` are read one by one as `devs`.
abbrev pub ReadAll : (Text → FileHeader) → List Text → List VirtioDevice → Type 0
ReadAll file [] [] = Unit
ReadAll file (s ∷ opts) (d ∷ devs) = (device_from_cmd_line file s ≡ ok d) × ReadAll file opts devs
ReadAll file _ _ = ⊥

-- The first argument that is refused, and the devices of those before it.
pub record StopsAt (file : Text → FileHeader) (opts : List Text) : Type 0 where
  pub good : List Text
  pub bad : Text
  pub rest : List Text
  pub devs : List VirtioDevice
  pub error : Error
  pub splits : opts ≡ good ++ bad ∷ rest
  pub reads : ReadAll file good devs
  pub fails : device_from_cmd_line file bad ≡ err error

-- `--device` in front of each value
abbrev pub device_flags : List Text → List Text
device_flags [] = []
device_flags (v ∷ vs) = codes "--device" ∷ v ∷ device_flags vs

module _ (file : Text → FileHeader) where
  step_ok :
      (vm : VirtualMachine) (s : Text) (rest : List Text) (d : VirtioDevice)
      → device_from_cmd_line file s ≡ ok d
      → add_devices_from_cmd_line file vm (s ∷ rest)
        ≡ add_devices_from_cmd_line file (add_devices vm (d ∷ [])) rest
  unfolding add_devices_from_cmd_line
  step_ok vm s rest d h = rw (h, add_devices_from_cmd_line)

  step_err :
      (vm : VirtualMachine) (s : Text) (rest : List Text) (e : Error)
      → device_from_cmd_line file s ≡ err e
      → add_devices_from_cmd_line file vm (s ∷ rest) ≡ (vm, some e)
  unfolding add_devices_from_cmd_line
  step_err vm s rest e h = rw (h, add_devices_from_cmd_line)

  -- Behind arguments that are read as `devs`, the machine has those devices behind its own, and the
  -- rest of the arguments is added to it.
  pub add_devices_from_cmd_line-append :
      (vm : VirtualMachine) (opts rest : List Text) (devs : List VirtioDevice)
      → ReadAll file opts devs
      → add_devices_from_cmd_line file vm (opts ++ rest)
        ≡ add_devices_from_cmd_line file (add_devices vm devs) rest
  add_devices_from_cmd_line-append vm [] rest [] _ = rw (append-nil vm.devices)
  add_devices_from_cmd_line-append vm (s ∷ opts) rest (d ∷ devs) (h, t) =
      step_ok vm s (opts ++ rest) d h
      ∙ add_devices_from_cmd_line-append (add_devices vm (d ∷ [])) opts rest devs t
      ∙ rw (append_assoc vm.devices (d ∷ []) devs)
  add_devices_from_cmd_line-append vm [] rest (d ∷ devs) h = absurd h
  add_devices_from_cmd_line-append vm (s ∷ opts) rest [] h = absurd h

  split_opts :
      (opts : List Text) → ((devs : List VirtioDevice) × ReadAll file opts devs) ⊎ StopsAt file opts
  split_opts [] = inl ([], tt)
  split_opts (s ∷ opts) = extend (Result-cases (device_from_cmd_line file s)) (split_opts opts)
    where
      extend :
          ((d : VirtioDevice) × (device_from_cmd_line file s ≡ ok d))
            ⊎ ((e : Error) × (device_from_cmd_line file s ≡ err e))
          → ((devs : List VirtioDevice) × ReadAll file opts devs) ⊎ StopsAt file opts
          → ((devs : List VirtioDevice) × ReadAll file (s ∷ opts) devs) ⊎ StopsAt file (s ∷ opts)
      extend (inr (e, h)) _ = inr (record {
        good = [];
        bad = s;
        rest = opts;
        devs = [];
        error = e;
        splits = refl;
        reads = tt;
        fails = h;
      })
      extend (inl (d, h)) (inl (devs, r)) = inl (d ∷ devs, (h, r))
      extend (inl (d, h)) (inr f) = inr (record {
        good = s ∷ f.good;
        bad = f.bad;
        rest = f.rest;
        devs = d ∷ f.devs;
        error = f.error;
        splits = ap (λ (l : List Text). s ∷ l) f.splits;
        reads = (h, f.reads);
        fails = f.fails;
      })

  pub added_all :
      (vm : VirtualMachine) (opts : List Text) (devs : List VirtioDevice)
      → ReadAll file opts devs
      → add_devices_from_cmd_line file vm opts ≡ (add_devices vm devs, none)
  added_all vm opts devs r =
      ap (add_devices_from_cmd_line file vm) (sym (append-nil opts))
      ∙ add_devices_from_cmd_line-append vm opts [] devs r
      ∙ unfold add_devices_from_cmd_line in refl

  -- All arguments are good and all their devices are behind those of the machine, in order; or the
  -- first bad one gives the error, and the machine has the devices of those before it. Nothing else
  -- of the machine changes.
  pub add_devices_from_cmd_line-cases :
      (vm : VirtualMachine) (opts : List Text)
      → ((devs : List VirtioDevice) × ReadAll file opts devs
          × (add_devices_from_cmd_line file vm opts ≡ (add_devices vm devs, none)))
        ⊎ ((f : StopsAt file opts) × (add_devices_from_cmd_line file vm opts
              ≡ (add_devices vm f.devs, some f.error)))
  add_devices_from_cmd_line-cases vm opts = elim (split_opts opts) [
    | inl (devs, r) ↦ inl (devs, r, added_all vm opts devs r)
    | inr f ↦ inr (
      f,
      ap (add_devices_from_cmd_line file vm) f.splits
          ∙ add_devices_from_cmd_line-append vm f.good (f.bad ∷ f.rest) f.devs f.reads
          ∙ step_err (add_devices vm f.devs) f.bad f.rest f.error f.fails,
    )
  ]

  -- Where each device is printable, the loop of `ToCmdLine` writes `--device` and a value for each,
  -- behind the arguments so far, and the values are read as the devices.
  pub devices_to_cmd_line-ReadAll :
      (args : List Text) (devs : List VirtioDevice)
      → All (IsPrintable file) devs
      → (values : List Text) × (devices_to_cmd_line args devs ≡ ok (args ++ device_flags values))
        × ReadAll file values (map canonical devs)
  unfolding devices_to_cmd_line
  devices_to_cmd_line-ReadAll args [] _ = ([], rw append-nil, tt)
  devices_to_cmd_line-ReadAll args (d ∷ devs) (p, t) =
      let r = device-ReadsAs file d p in
      let (values, w, ra) =
        devices_to_cmd_line-ReadAll (args ++ codes "--device" ∷ r.value ∷ []) devs t in
      (r.value ∷ values, rw (r.written, w, append_assoc), (r.read, ra))
