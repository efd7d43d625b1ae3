-- ===== src/Decimal/Signed.antt =====
-- Signed numbers: what `%d` prints of one, `ParseInt` reads back.
use vfkit.Base.{ℕ, suc, ◌-◌, ◌^◌, ◌<◌, String, [], ◌∷◌, ◌≡◌, arith, ok, All}
use vfkit.Base.Int.{ℤ, pos, negsuc}
use vfkit.Text.{Text}
use vfkit.Text.Space.{IsPlain}
use vfkit.Decimal.{format, format_int, parse_signed, signed}
use vfkit.Decimal.RoundTrip.{parse_digits-format, parse_signed-format, IsDigit, format-IsDigit}

-- A number that fits a signed type of `bits` bits
abbrev pub IsInt : ℕ → ℤ → Type 0
IsInt bits (pos n) = n < 2 ^ (bits - 1)
IsInt bits (negsuc n) = n < 2 ^ (bits - 1)

pub parse_signed-format_int :
    (fn : String) (bits : ℕ) (z : ℤ)
    → 2 ^ (bits - 1) < 2 ^ bits
    → IsInt bits z
    → parse_signed fn bits (format_int z) ≡ ok z
unfolding format_int
parse_signed-format_int fn bits (pos n) less h = parse_signed-format fn bits n h (omega arith)
parse_signed-format_int fn bits (negsuc n) less h =
    unfold parse_signed signed in
    rw (parse_digits-format fn (b'-' ∷ format (suc n)) bits (suc n) (omega arith)) (ground arith)

IsDigit-IsPlain : (s : Text) → All IsDigit s → All IsPlain s
IsDigit-IsPlain [] h = tt
IsDigit-IsPlain (c ∷ s) (h, t) = ((omega arith, omega arith), IsDigit-IsPlain s t)

pub format_int-IsPlain : (z : ℤ) → All IsPlain (format_int z)
unfolding format_int
format_int-IsPlain (pos n) = IsDigit-IsPlain (format n) (format-IsDigit n)
format_int-IsPlain (negsuc n) =
    ((omega arith, omega arith), IsDigit-IsPlain (format (suc n)) (format-IsDigit (suc n)))
