-- ===== src/Config/Bootloader/RoundTrip.antt =====
-- The `--bootloader` argument of an EFI bootloader, through the flag's parser.
use vfkit.Base.{
  Bool, true, false, [], ◌∷◌, ◌++◌, ◌≡◌, ◌≢◌, refl, arith, ok, ◌>>=◌, inr, List, append-nil,
}
use vfkit.Text.{Text, codes, comma, quote, join, trim_quotes}
use vfkit.Text.Split.{Lacks}
use vfkit.Text.Utf8.{IsUtf8, ascii-IsUtf8}
use vfkit.Text.Utf8.Append.{ascii-append-IsUtf8}
use vfkit.Cmdline.{parse_string}
use vfkit.Cmdline.Fields.{IsField, done, plain, parse_string-join}
use vfkit.Config.Options.{strv_to_options}
use vfkit.Config.Bootloader.{
  EfiBootloader, efi, efi_to_cmd_line, efi_from_options, to_cmd_line, bootloader_from_cmd_line,
}

Lacks-IsField : (s : Text) → Lacks comma s → Lacks quote s → IsField s
Lacks-IsField [] _ _ = done
Lacks-IsField (c ∷ s) (h, t) (k, u) = plain h k (Lacks-IsField s t u)

abbrev create_opts : Bool → List Text
create_opts true = codes "create" ∷ []
create_opts false = []

abbrev efi_opts : EfiBootloader → List Text
efi_opts b =
    (codes "variable-store=" ++ b.efi_variable_store_path) ∷ create_opts b.create_variable_store

-- The parts of the value, all of them plain fields.
efi_parse :
    (path : Text) (create : Bool)
    → Lacks comma path
    → Lacks quote path
    → IsUtf8 path
    → let b : EfiBootloader = record {
      efi_variable_store_path = path;
      create_variable_store = create;
    } in
      parse_string (join (comma ∷ []) (codes "efi" ∷ efi_opts b)) ≡ ok (codes "efi" ∷ efi_opts b)
unfolding codes trim_quotes
efi_parse path true h k u =
    parse_string-join (codes "efi") _
      (
        Lacks-IsField (codes "efi") (omega arith) (omega arith),
        (
          Lacks-IsField (codes "variable-store=" ++ path) (ground arith) (ground arith),
          (Lacks-IsField (codes "create") (omega arith) (omega arith), tt),
        ),
      )
      (
        ascii-IsUtf8 (codes "efi") (omega arith),
        (
          ascii-append-IsUtf8 (codes "variable-store=") path (omega arith) u,
          (ascii-IsUtf8 (codes "create") (omega arith), tt),
        ),
      )
      (inr cc)
efi_parse path false h k u =
    parse_string-join (codes "efi") _
      (
        Lacks-IsField (codes "efi") (omega arith) (omega arith),
        (Lacks-IsField (codes "variable-store=" ++ path) (ground arith) (ground arith), tt),
      )
      (
        ascii-IsUtf8 (codes "efi") (omega arith),
        (ascii-append-IsUtf8 (codes "variable-store=") path (omega arith) u, tt),
      )
      (inr cc)

efi-written :
    (path : Text) (create : Bool)
    → path ≢ []
    → let b : EfiBootloader = record {
      efi_variable_store_path = path;
      create_variable_store = create;
    } in
      to_cmd_line (efi b)
      ≡ ok (codes "--bootloader" ∷ join (comma ∷ []) (codes "efi" ∷ efi_opts b) ∷ [])
unfolding codes join to_cmd_line efi_to_cmd_line
efi-written [] create ne = absurd (ne refl)
efi-written (c ∷ path) true ne = refl
efi-written (c ∷ path) false ne = rw append-nil

efi-read :
    (path : Text) (create : Bool)
    → let b : EfiBootloader = record {
      efi_variable_store_path = path;
      create_variable_store = create;
    } in
      bootloader_from_cmd_line (codes "efi" ∷ efi_opts b) ≡ ok (efi b)
unfolding codes bootloader_from_cmd_line efi_from_options strv_to_options
efi-read path true = refl
efi-read path false = refl

-- An EFI bootloader whose path is valid UTF-8, not empty, and has no comma and no quote is written
-- as `--bootloader` and one value, and the flag's parser and `BootloaderFromCmdLine` read that
-- value as the same bootloader.
pub efi_round_trip :
    (b : EfiBootloader)
    → b.efi_variable_store_path ≢ []
    → Lacks comma b.efi_variable_store_path
    → Lacks quote b.efi_variable_store_path
    → IsUtf8 b.efi_variable_store_path
    → (s : Text) × (to_cmd_line (efi b) ≡ ok (codes "--bootloader" ∷ s ∷ []))
      × ((parse_string s >>= bootloader_from_cmd_line) ≡ ok (efi b))
efi_round_trip b ne h k u = (
  join (comma ∷ []) (codes "efi" ∷ efi_opts b),
  efi-written b.efi_variable_store_path b.create_variable_store ne,
  rw (efi_parse b.efi_variable_store_path b.create_variable_store h k u)
      (efi-read b.efi_variable_store_path b.create_variable_store),
)
