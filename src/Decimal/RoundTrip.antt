-- ===== src/Decimal/RoundTrip.antt =====
-- What `%d` prints, the parsers of package strconv read back; it holds digits only.
use vfkit.Base.{
  ℕ, zero, suc, ◌+◌, ◌-◌, ◌/◌, ◌%◌, ◌^◌, ◌≤◌, ◌<◌, ◌≢◌, String, false, [], ◌∷◌, ◌≡◌, refl, arith,
  All, ltb, ◌∙◌, Bool-cases, inl, inr, ok, ◌>>=◌,
}
use vfkit.Base.Int.{pos}
use vfkit.Text.{Text}
use vfkit.Decimal.{digits, format, scan, parse_digits, signed, parse_signed}

abbrev pub IsDigit : ℕ → Type 0
IsDigit c = (b'0' ≤ c) × (c ≤ b'9')

digits-IsDigit : (f n : ℕ) (out : Text) → All IsDigit out → All IsDigit (digits f n out)
unfolding digits
digits-IsDigit zero n out h = h
digits-IsDigit (suc f) n out h =
    ground
      (arith, digits-IsDigit f (n / 10) ((b'0' + n % 10) ∷ out) ((omega arith, omega arith), h))

pub format-IsDigit : (n : ℕ) → All IsDigit (format n)
unfolding format
format-IsDigit n = digits-IsDigit (suc n) n [] tt

scan-digits :
    (fn : String) (s0 : Text) (max f n : ℕ) (out : Text)
    → n < f
    → n ≤ max
    → scan fn s0 max (digits f n out) 0 ≡ scan fn s0 max out n
unfolding digits scan
scan-digits fn s0 max zero n out h le = elim h [ ]
scan-digits fn s0 max (suc f) n out h le = elim (Bool-cases (ltb n 10)) [
  | inl small ↦ rw small (ground arith)
  | inr large ↦ rw large (
      scan-digits fn s0 max f (n / 10) ((b'0' + n % 10) ∷ out) (ground arith) (omega arith)
      ∙ ground arith)
]

digits-ne-nil : (f n : ℕ) (out : Text) → out ≢ [] → digits f n out ≢ []
unfolding digits
digits-ne-nil zero n out h = h
digits-ne-nil (suc f) n out h = ground (arith, digits-ne-nil f (n / 10) ((b'0' + n % 10) ∷ out))

pub format-ne-nil : (n : ℕ) → format n ≢ []
unfolding format
format-ne-nil n = ground (arith, digits-ne-nil n (n / 10) ((b'0' + n % 10) ∷ []))

parse_digits-eq-scan :
    (fn : String) (s0 : Text) (bits : ℕ) (s : Text)
    → s ≢ []
    → parse_digits fn s0 bits s ≡ scan fn s0 (2 ^ bits - 1) s 0
unfolding parse_digits
parse_digits-eq-scan fn s0 bits [] h = absurd (h refl)
parse_digits-eq-scan fn s0 bits (c ∷ s) h = refl

pub parse_digits-format :
    (fn : String) (s0 : Text) (bits n : ℕ)
    → n < 2 ^ bits
    → parse_digits fn s0 bits (format n) ≡ ok n
parse_digits-format fn s0 bits n h =
    parse_digits-eq-scan fn s0 bits (format n) (format-ne-nil n)
    ∙ unfold format scan in
      scan-digits fn s0 (2 ^ bits - 1) (suc n) n [] (omega arith) (omega arith)

-- A text that begins with a digit is read with no sign.
parse_signed-digit :
    (fn : String) (bits : ℕ) (s : Text)
    → s ≢ []
    → All IsDigit s
    → parse_signed fn bits s ≡ (parse_digits fn s bits s >>= signed fn s bits false)
unfolding parse_signed
parse_signed-digit fn bits [] h d = absurd (h refl)
parse_signed-digit fn bits (c ∷ s) h d = ground arith

-- The formatted number is the number again, for the signed parsers.
pub parse_signed-format :
    (fn : String) (bits n : ℕ)
    → n < 2 ^ (bits - 1)
    → 2 ^ (bits - 1) ≤ 2 ^ bits
    → parse_signed fn bits (format n) ≡ ok (pos n)
parse_signed-format fn bits n h le =
    parse_signed-digit fn bits (format n) (format-ne-nil n) (format-IsDigit n)
    ∙ rw (parse_digits-format fn (format n) bits n (omega arith)) (unfold signed in ground arith)

IsDigit-Lacks : (b : ℕ) (s : Text) → b < b'0' → All IsDigit s → All (λ c. c ≢ b) s
IsDigit-Lacks b [] h _ = tt
IsDigit-Lacks b (c ∷ s) h (d, t) = (omega arith, IsDigit-Lacks b s h t)

-- No separator stands in a formatted number.
pub format-Lacks : (b n : ℕ) → b < b'0' → All (λ c. c ≢ b) (format n)
format-Lacks b n h = IsDigit-Lacks b (format n) h (format-IsDigit n)
