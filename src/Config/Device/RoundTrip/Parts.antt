-- ===== src/Config/Device/RoundTrip/Parts.antt =====
-- The value of a `--device` argument as its parts, joined by commas.
use vfkit.Base.{List, [], ◌∷◌, ◌++◌, ◌≡◌, ◌∙◌, ◌≢◌, ok, All, All-append}
use vfkit.Text.{Text, codes, comma, join}
use vfkit.Text.Split.{Lacks}
use vfkit.Text.Join.{split-join}
use vfkit.Config.Device.{VirtioDevice, to_cmd_line, device_from_cmd_line, device_from_parts}
use vfkit.Config.Device.Disk.{FileHeader}

-- No comma: the part of a comma-separated list.
abbrev pub IsPart : Text → Type 0
IsPart = Lacks comma

pub IsPart-append : (s t : Text) → IsPart s → IsPart t → IsPart (s ++ t)
IsPart-append s t = All-append (λ c. c ≢ comma) s t

pub device_from_cmd_line-join :
    (file : Text → FileHeader) (name : Text) (opts : List Text)
    → All IsPart (name ∷ opts)
    → device_from_cmd_line file (join (comma ∷ []) (name ∷ opts))
      ≡ device_from_parts file (name ∷ opts)
unfolding device_from_cmd_line
device_from_cmd_line-join file name opts h = rw (split-join comma name opts h)

-- `d` has a command line, `--device` and one value, and that value is read as `d'`.
pub record ReadsAs (file : Text → FileHeader) (d d' : VirtioDevice) : Type 0 where
  pub value : Text
  pub written : to_cmd_line d ≡ ok (codes "--device" ∷ value ∷ [])
  pub read : device_from_cmd_line file value ≡ ok d'

pub ReadsAs-parts :
    (file : Text → FileHeader) (d d' : VirtioDevice) (name : Text) (opts : List Text)
    → All IsPart (name ∷ opts)
    → to_cmd_line d ≡ ok (codes "--device" ∷ join (comma ∷ []) (name ∷ opts) ∷ [])
    → device_from_parts file (name ∷ opts) ≡ ok d'
    → ReadsAs file d d'
ReadsAs-parts file d d' name opts h written read = record {
  value = join (comma ∷ []) (name ∷ opts);
  written = written;
  read = device_from_cmd_line-join file name opts h ∙ read;
}
