-- ===== src/Config/Device/Accepted/Console.antt =====
-- Serial, GPU and input devices that are accepted.
use vfkit.Base.{
  zero, suc, ◌<◌, Bool, true, false, List, [], ◌∷◌, ◌≡◌, ◌≢◌, ◌⊎◌, inl, inr, refl, arith, ok,
  for_each, >>=-eq-ok, checked-eq-ok,
}
use vfkit.Base.Int.{ℤ, pos, negsuc}
use vfkit.Text.{Text, codes, text_eq_iff}
use vfkit.Config.Options.{CmdOption}
use vfkit.Config.Device.Serial.{VirtioSerial}
use vfkit.Config.Device.Serial
use vfkit.Config.Device.Gpu.{VirtioGpu}
use vfkit.Config.Device.Gpu
use vfkit.Config.Device.Input.{VirtioInput}
use vfkit.Config.Device.Input

-- Exactly one of a log file, the standard streams and a pty.
abbrev pub OneConsole : Text → Bool → Bool → Type 0
OneConsole log stdio pty =
    ((log ≢ []) × (stdio ≡ false) × (pty ≡ false))
    ⊎ (((log ≡ []) × (stdio ≡ true) × (pty ≡ false))
        ⊎ ((log ≡ []) × (stdio ≡ false) × (pty ≡ true)))

one_console :
    (log : Text) (stdio pty : Bool) (name : Text)
    → Serial.validate
        (record { log_file = log; uses_stdio = stdio; uses_pty = pty; pty_name = name })
      ≡ ok tt
    → OneConsole log stdio pty
unfolding Serial.validate
one_console [] true true name h = cc
one_console [] true false name h = inr (inl (refl, refl, refl))
one_console [] false true name h = inr (inr (refl, refl, refl))
one_console [] false false name h = cc
one_console (c ∷ s) true true name h = cc
one_console (c ∷ s) true false name h = cc
one_console (c ∷ s) false true name h = cc
one_console (c ∷ s) false false name h = inl (cc, refl, refl)

-- At least 1.
abbrev pub IsDimension : ℤ → Type 0
IsDimension (pos n) = 0 < n
IsDimension (negsuc n) = ⊥

gpu_dimensions :
    (gui : Bool) (width height : ℤ)
    → Gpu.validate (record { uses_gui = gui; width = width; height = height }) ≡ ok tt
    → IsDimension width × IsDimension height
unfolding Gpu.validate
gpu_dimensions gui (pos w) (pos h) e = (ground arith, ground arith)
gpu_dimensions gui (negsuc w) (pos zero) e = cc
gpu_dimensions gui (negsuc w) (pos (suc h)) e = ground arith
gpu_dimensions gui (pos w) (negsuc h) e = cc
gpu_dimensions gui (negsuc w) (negsuc h) e = cc

pub serial_accepted :
    (d : VirtioSerial) (os : List CmdOption) (r : VirtioSerial)
    → Serial.from_options d os ≡ ok r
    → OneConsole r.log_file r.uses_stdio r.uses_pty
unfolding Serial.from_options
serial_accepted d os r e =
    one_console r.log_file r.uses_stdio r.uses_pty r.pty_name
      (checked-eq-ok (for_each Serial.set_option d os) Serial.validate e).1

pub gpu_accepted :
    (d : VirtioGpu) (os : List CmdOption) (r : VirtioGpu)
    → Gpu.from_options d os ≡ ok r
    → IsDimension r.width × IsDimension r.height
unfolding Gpu.from_options
gpu_accepted d os r e =
    let (d', made, rest) = >>=-eq-ok (for_each Gpu.set_option d os) _ e in
    gpu_dimensions r.uses_gui r.width r.height
      (checked-eq-ok (ok (Gpu.with_default d')) Gpu.validate rest).1

-- `pointing` or `keyboard`
pub input_accepted :
    (d : VirtioInput) (os : List CmdOption) (r : VirtioInput)
    → Input.from_options d os ≡ ok r
    → (r.input_type ≡ codes "pointing") ⊎ (r.input_type ≡ codes "keyboard")
unfolding Input.from_options Input.validate
input_accepted d os r e =
    let v = (checked-eq-ok (for_each Input.set_option d os) Input.validate e).1 in
    let pointing = text_eq_iff r.input_type (codes "pointing") in
    let keyboard = text_eq_iff r.input_type (codes "keyboard") in ground arith
