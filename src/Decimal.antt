-- ===== src/Decimal.antt =====
-- Decimal numbers: `%d` of package fmt and `FormatUint`, `ParseUint`, `ParseInt` and `Atoi` of
-- package strconv at base 10, as pkg/config uses them.
pub mod RoundTrip
pub mod Range
pub mod Signed
use vfkit.Base.{
  ℕ, suc, zero, ◌+◌, ◌-◌, ◌*◌, ◌/◌, ◌%◌, ◌^◌, String, Bool, true, false, ◌||◌, [], ◌∷◌, ◌==◌, ltb,
  if◌then◌else◌, Error, errorf, Result, ok, err, ◌>>=◌,
}
use vfkit.Base.Int.{ℤ, pos, negsuc}
use vfkit.Text.{Text, codes}

-- The digits of `n` in front of `out`. The fuel is one more than the number that is printed.
unfoldable pub digits : ℕ → ℕ → Text → Text
digits zero n out = out
digits (suc f) n out =
    let rest = digits f (n / 10) ((b'0' + n % 10) ∷ out) in
    if ltb n 10 then (b'0' + n) ∷ out else rest

unfoldable pub format : ℕ → Text
unfolding digits
format n = digits (suc n) n []

-- `%d` of a signed number
unfoldable pub format_int : ℤ → Text
unfolding format
format_int (pos n) = format n
format_int (negsuc n) = b'-' ∷ format (suc n)

abbrev pub syntax_error : String → Text → Error
syntax_error fn s = errorf "strconv.%s: parsing %q: invalid syntax" (codes fn ∷ s ∷ [])

abbrev pub range_error : String → Text → Error
range_error fn s = errorf "strconv.%s: parsing %q: value out of range" (codes fn ∷ s ∷ [])

-- The loop of `ParseUint` over the digits, with the value so far. Its test before the
-- multiplication only keeps it from wrapping round, so the product is taken in ℕ.
unfoldable pub scan : String → Text → ℕ → Text → ℕ → Result ℕ
scan fn s0 max [] n = ok n
scan fn s0 max (c ∷ s) n =
    let m = n * 10 + (c - b'0') in
    let rest = scan fn s0 max s m in
    if ltb c b'0' || ltb b'9' c
    then err (syntax_error fn s0)
    else if ltb max m
    then err (range_error fn s0)
    else rest

-- `ParseUint(s, 10, bits)`; `fn` and `s0` name the call in an error.
unfoldable pub parse_digits : String → Text → ℕ → Text → Result ℕ
unfolding scan
parse_digits fn s0 bits [] = err (syntax_error fn s0)
parse_digits fn s0 bits (c ∷ s) = scan fn s0 (2 ^ bits - 1) (c ∷ s) 0

abbrev pub parse_uint : ℕ → Text → Result ℕ
parse_uint bits s = parse_digits "ParseUint" s bits s

-- The range check of `ParseInt` on the magnitude, and the sign.
unfoldable pub signed : String → Text → ℕ → Bool → ℕ → Result ℤ
signed fn s0 bits false n = if ltb n (2 ^ (bits - 1)) then ok (pos n) else err (range_error fn s0)
signed fn s0 bits true n =
    if ltb (2 ^ (bits - 1)) n
    then err (range_error fn s0)
    else if n == 0
    then ok (pos 0)
    else ok (negsuc (n - 1))

-- `ParseInt(s, 10, bits)`, and `Atoi(s)` at 64 bits
unfoldable pub parse_signed : String → ℕ → Text → Result ℤ
unfolding parse_digits signed
parse_signed fn bits [] = err (syntax_error fn [])
parse_signed fn bits (c ∷ s) =
    if c == b'-'
    then parse_digits fn (c ∷ s) bits s >>= signed fn (c ∷ s) bits true
    else if c == b'+'
    then parse_digits fn (c ∷ s) bits s >>= signed fn (c ∷ s) bits false
    else parse_digits fn (c ∷ s) bits (c ∷ s) >>= signed fn (c ∷ s) bits false

abbrev pub parse_int : ℕ → Text → Result ℤ
parse_int = parse_signed "ParseInt"

abbrev pub atoi : Text → Result ℤ
atoi = parse_signed "Atoi" 64
