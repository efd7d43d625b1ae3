-- ===== src/Config/Device/RoundTrip/Console.antt =====
-- `VirtioSerial`, `VirtioInput` and `VirtioGPU`.
use vfkit.Base.{
  ℕ, ◌<◌, ◌^◌, Bool, true, false, [], ◌∷◌, ◌++◌, ◌≡◌, ◌⊎◌, inl, inr, refl, arith, ok, List, All,
  ltb-eq-false, ==_eq-false, sym, subst,
}
use vfkit.Base.Int.{ℤ, pos}
use vfkit.Text.{Text, codes, join, comma}
use vfkit.Decimal.{format, format_int}
use vfkit.Decimal.RoundTrip.{format-Lacks, parse_signed-format}
use vfkit.Config.Options.{strv_to_options}
use vfkit.Config.Device.{
  virtio_serial, virtio_input, virtio_gpu, to_cmd_line, from_options, new_device,
}
use vfkit.Config.Device.Disk.{FileHeader}
use vfkit.Config.Device.Serial.{VirtioSerial, validate}
use vfkit.Config.Device.Serial
use vfkit.Config.Device.Input.{VirtioInput}
use vfkit.Config.Device.Input
use vfkit.Config.Device.Gpu.{VirtioGpu}
use vfkit.Config.Device.Gpu
use vfkit.Config.Device.RoundTrip.Parts.{IsPart, ReadsAs, ReadsAs-parts}

pub record IsSerial (d : VirtioSerial) : Type 0 where
  pub valid : Serial.validate d ≡ ok tt
  pub log_part : IsPart d.log_file

pub record IsInput (d : VirtioInput) : Type 0 where
  pub known : (d.input_type ≡ codes "pointing") ⊎ (d.input_type ≡ codes "keyboard")

-- The dimensions are positive and fit an `int`.
pub record IsGpu (d : VirtioGpu) : Type 0 where
  pub w : ℕ
  pub h : ℕ
  pub width_is : d.width ≡ pos w
  pub height_is : d.height ≡ pos h
  pub w_range : (0 < w) × (w < 2 ^ 63)
  pub h_range : (0 < h) × (h < 2 ^ 63)

module _ (file : Text → FileHeader) where
  serial_fields :
      (log : Text) (stdio pty : Bool) (name : Text)
      → let d : VirtioSerial = record {
        log_file = log;
        uses_stdio = stdio;
        uses_pty = pty;
        pty_name = name;
      } in
        IsSerial d → ReadsAs file (virtio_serial d) (virtio_serial (record d { pty_name = [] }))
  unfolding to_cmd_line Serial.to_cmd_line new_device from_options Serial.from_options codes join
      strv_to_options
  serial_fields [] true false name v =
      ReadsAs-parts file _ _ (codes "virtio-serial") (codes "stdio" ∷ []) (ground arith) refl refl
  serial_fields [] false true name v =
      ReadsAs-parts file _ _ (codes "virtio-serial") (codes "pty" ∷ []) (ground arith) refl refl
  serial_fields (c ∷ log) false false name v =
      ReadsAs-parts file _ _ (codes "virtio-serial") ((codes "logFilePath=" ++ c ∷ log) ∷ [])
        (ground (arith, v.log_part)) refl refl
  serial_fields [] true true name v = cc (v.valid)
  serial_fields [] false false name v = cc (v.valid)
  serial_fields (c ∷ log) true pty name v = cc (v.valid)
  serial_fields (c ∷ log) false true name v = cc (v.valid)

  pub serial-ReadsAs :
      (d : VirtioSerial)
      → IsSerial d
      → ReadsAs file (virtio_serial d) (virtio_serial (record d { pty_name = [] }))
  serial-ReadsAs d v = serial_fields d.log_file d.uses_stdio d.uses_pty d.pty_name v

  abbrev input : Text → VirtioInput
  input t = record { input_type = t }

  pub input-ReadsAs : (d : VirtioInput) → IsInput d → ReadsAs file (virtio_input d) (virtio_input d)
  input-ReadsAs d v = elim v.known [
    | inl e ↦
        subst (λ t. ReadsAs file (virtio_input (input t)) (virtio_input (input t))) (sym e)
          (ReadsAs-parts file (virtio_input (input (codes "pointing")))
            (virtio_input (input (codes "pointing"))) (codes "virtio-input") (codes "pointing" ∷ [])
            (unfold codes in ground arith) (unfold to_cmd_line Input.to_cmd_line codes join in refl)
            (unfold new_device from_options Input.from_options codes strv_to_options in refl))
    | inr e ↦
        subst (λ t. ReadsAs file (virtio_input (input t)) (virtio_input (input t))) (sym e)
          (ReadsAs-parts file (virtio_input (input (codes "keyboard")))
            (virtio_input (input (codes "keyboard"))) (codes "virtio-input") (codes "keyboard" ∷ [])
            (unfold codes in ground arith) (unfold to_cmd_line Input.to_cmd_line codes join in refl)
            (unfold new_device from_options Input.from_options codes strv_to_options in refl))
  ]

abbrev gpu_opts : ℕ → ℕ → List Text
gpu_opts w h = (codes "width=" ++ format w) ∷ (codes "height=" ++ format h) ∷ []

gpu-written :
    (gui : Bool) (w h : ℕ)
    → 0 < w
    → 0 < h
    → Gpu.to_cmd_line (record { uses_gui = gui; width = pos w; height = pos h })
      ≡ ok (codes "--device" ∷ join (comma ∷ []) (codes "virtio-gpu" ∷ gpu_opts w h) ∷ [])
unfolding Gpu.to_cmd_line codes join format_int
gpu-written gui w h p q = rw (ltb-eq-false w 1 p, ltb-eq-false h 1 q)

gpu-read :
    (w h : ℕ)
    → (0 < w) × (w < 2 ^ 63)
    → (0 < h) × (h < 2 ^ 63)
    → Gpu.from_options Gpu.empty (strv_to_options (gpu_opts w h))
      ≡ ok (record { uses_gui = false; width = pos w; height = pos h })
unfolding Gpu.from_options codes strv_to_options
gpu-read w h p q = rw (
  parse_signed-format "Atoi" 64 w p.1 (omega arith),
  parse_signed-format "Atoi" 64 h q.1 (omega arith),
  ltb-eq-false w 1 p.0,
  ltb-eq-false h 1 q.0,
  ==_eq-false w 0 (omega arith),
  ltb-eq-false w 1 p.0,
  ltb-eq-false h 1 q.0,
)

gpu_opts-IsPart : (w h : ℕ) → All IsPart (gpu_opts w h)
unfolding codes
gpu_opts-IsPart w h =
    ground (arith, format-Lacks comma w (omega arith), format-Lacks comma h (omega arith))

module _ (file : Text → FileHeader) where
  gpu_fields :
      (gui : Bool) (w h : ℕ)
      → (0 < w) × (w < 2 ^ 63)
      → (0 < h) × (h < 2 ^ 63)
      → ReadsAs file
          (virtio_gpu (record { uses_gui = gui; width = pos w; height = pos h }))
          (virtio_gpu (record { uses_gui = false; width = pos w; height = pos h }))
  unfolding to_cmd_line new_device from_options
  gpu_fields gui w h p q =
      ReadsAs-parts file _ _ (codes "virtio-gpu") (gpu_opts w h)
        (unfold codes in omega arith, gpu_opts-IsPart w h) (gpu-written gui w h p.0 q.0)
        (rw (gpu-read w h p q))

  -- Whether the device is shown in a window is not on the command line.
  pub gpu-ReadsAs :
      (d : VirtioGpu)
      → IsGpu d
      → ReadsAs file (virtio_gpu d) (virtio_gpu (record d { uses_gui = false }))
  gpu-ReadsAs d v =
      subst
        (λ (x : ℤ).
          ReadsAs file (virtio_gpu (record d { width = x }))
            (virtio_gpu (record d { uses_gui = false; width = x })))
        (sym v.width_is)
        (subst
          (λ (y : ℤ).
            ReadsAs file (virtio_gpu (record d { width = pos v.w; height = y }))
              (virtio_gpu (record d { uses_gui = false; width = pos v.w; height = y })))
          (sym v.height_is) (gpu_fields d.uses_gui v.w v.h v.w_range v.h_range))
