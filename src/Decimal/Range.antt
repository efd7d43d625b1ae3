-- ===== src/Decimal/Range.antt =====
-- What `ParseUint` returns is in range.
use vfkit.Base.{ℕ, ◌+◌, ◌-◌, ◌*◌, ◌^◌, ◌≤◌, [], ◌∷◌, ◌≡◌, arith, ok, String}
use vfkit.Text.{Text}
use vfkit.Decimal.{scan, parse_digits}

scan-bound :
    (fn : String) (s0 : Text) (max : ℕ) (s : Text) (n m : ℕ)
    → n ≤ max
    → scan fn s0 max s n ≡ ok m
    → m ≤ max
unfolding scan
scan-bound fn s0 max [] n m h e = ground arith
scan-bound fn s0 max (c ∷ s) n m h e =
    let ih = scan-bound fn s0 max s (n * 10 + (c - b'0')) m in ground arith

-- A number that is parsed with `bits` bits is below 2 ^ bits.
pub parse_digits-bound :
    (fn : String) (s0 : Text) (bits : ℕ) (s : Text) (n : ℕ)
    → parse_digits fn s0 bits s ≡ ok n
    → n ≤ 2 ^ bits - 1
unfolding parse_digits
parse_digits-bound fn s0 bits [] n e = cc
parse_digits-bound fn s0 bits (c ∷ s) n e =
    scan-bound fn s0 (2 ^ bits - 1) (c ∷ s) 0 n (omega arith) e
