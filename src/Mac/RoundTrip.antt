-- ===== src/Mac/RoundTrip.antt =====
-- `ParseMAC` reads back what `String` prints.
use vfkit.Base.{
  ℕ, ◌+◌, ◌*◌, ◌/◌, ◌%◌, ◌<◌, ◌≤◌, ◌≢◌, ◌⊎◌, inl, inr, [], ◌∷◌, ◌≡◌, arith, some, ok, ltb-eq-false,
  All, length,
}
use vfkit.Text.{Text, comma}
use vfkit.Text.Split.{Lacks}
use vfkit.Mac.{hex_value, hex_pair, hex_digit, parse_pairs, parse_mac_at, parse_mac, mac_string}

abbrev pub IsByte : ℕ → Type 0
IsByte b = b < 256

-- An address as `ParseMAC` builds them.
abbrev pub IsMac : Text → Type 0
IsMac a = All IsByte a × ((length a ≡ 6) ⊎ (length a ≡ 8) ⊎ (length a ≡ 20))

hex_value-hex_digit : (n : ℕ) → n < 16 → hex_value (hex_digit n) ≡ some n
unfolding hex_value hex_digit
hex_value-hex_digit n h = ground arith

hex_pair-hex_digit : (b : ℕ) → b < 256 → hex_pair (hex_digit (b / 16)) (hex_digit (b % 16)) ≡ some b
unfolding hex_pair
hex_pair-hex_digit b h =
    ground (
      arith,
      hex_value-hex_digit (b / 16) (omega arith),
      hex_value-hex_digit (b % 16) (omega arith),
    )

parse_pairs-mac_string :
    (b : ℕ) (bs : Text)
    → All IsByte (b ∷ bs)
    → parse_pairs b':' (mac_string (b ∷ bs)) ≡ some (b ∷ bs)
unfolding parse_pairs mac_string
parse_pairs-mac_string b [] (h, _) = rw (hex_pair-hex_digit b h)
parse_pairs-mac_string b (c ∷ bs) (h, t) =
    rw (hex_pair-hex_digit b h, parse_pairs-mac_string c bs t)

length-mac_string : (b : ℕ) (bs : Text) → length (mac_string (b ∷ bs)) + 1 ≡ 3 * length (b ∷ bs)
unfolding mac_string
length-mac_string b [] = omega arith
length-mac_string b (c ∷ bs) = omega (arith, length-mac_string c bs)

hex_digit-Lacks : (n : ℕ) → n < 16 → hex_digit n ≢ comma
unfolding hex_digit
hex_digit-Lacks n h = ground arith

pub mac_string-Lacks : (a : Text) → All IsByte a → Lacks comma (mac_string a)
unfolding mac_string
mac_string-Lacks [] _ = tt
mac_string-Lacks (b ∷ []) (h, _) =
    (hex_digit-Lacks (b / 16) (omega arith), (hex_digit-Lacks (b % 16) (omega arith), tt))
mac_string-Lacks (b ∷ c ∷ bs) (h, t) = (
  hex_digit-Lacks (b / 16) (omega arith),
  (hex_digit-Lacks (b % 16) (omega arith), (omega arith, mac_string-Lacks (c ∷ bs) t)),
)

parse_mac_at_colon :
    (s a : Text) (fifth n : ℕ)
    → parse_pairs b':' s ≡ some a
    → length s + 1 ≡ 3 * n
    → (n ≡ 6) ⊎ (n ≡ 8) ⊎ (n ≡ 20)
    → (14 ≤ length s) × (parse_mac_at s b':' fifth ≡ ok a)
unfolding parse_mac_at
parse_mac_at_colon s a fifth n e l (inl h) =
    let size : length s + 1 ≡ 18 = omega arith in (omega arith, rw (e, size))
parse_mac_at_colon s a fifth n e l (inr (inl h)) =
    let size : length s + 1 ≡ 24 = omega arith in (omega arith, rw (e, size))
parse_mac_at_colon s a fifth n e l (inr (inr h)) =
    let size : length s + 1 ≡ 60 = omega arith in (omega arith, rw (e, size))

-- An address of 6, 8 or 20 bytes is read back from its printed form.
pub parse_mac-mac_string : (a : Text) → IsMac a → parse_mac (mac_string a) ≡ ok a
parse_mac-mac_string (b ∷ c ∷ d ∷ bs) (h, n) =
    let s = mac_string (b ∷ c ∷ d ∷ bs) in
    let (long, read) =
      parse_mac_at_colon s (b ∷ c ∷ d ∷ bs) (hex_digit (c % 16)) (length (b ∷ c ∷ d ∷ bs))
        (parse_pairs-mac_string b (c ∷ d ∷ bs) h) (length-mac_string b (c ∷ d ∷ bs)) n in
    unfold parse_mac mac_string in rw (ltb-eq-false _ 14 long) read
parse_mac-mac_string _ (h, n) = absurd (omega arith)
