-- ===== src/Mac.antt =====
-- `net.HardwareAddr`, `net.ParseMAC` and `HardwareAddr.String` of the standard library, as
-- pkg/config uses them: an address is the list of its bytes.
pub mod RoundTrip
use vfkit.Base.{
  ℕ, ◌+◌, ◌-◌, ◌*◌, ◌/◌, ◌%◌, Bool, true, false, not, ◌&&◌, ◌||◌, [], ◌∷◌, ◌++◌, Option, none, some,
  ◌==◌, ltb, leb, if◌then◌else◌, length, Error, errorf, Result, ok, err,
}
use vfkit.Text.{Text}

-- The value of a hexadecimal digit.
unfoldable pub hex_value : ℕ → Option ℕ
hex_value c =
    if leb b'0' c && leb c b'9'
    then some (c - b'0')
    else if leb b'a' c && leb c b'f'
    then some (c - b'a' + 10)
    else if leb b'A' c && leb c b'F'
    then some (c - b'A' + 10)
    else none

-- `xtoi2` on two digits
unfoldable pub hex_pair : ℕ → ℕ → Option ℕ
unfolding hex_value
hex_pair h l = elim (hex_value h) [
  | none ↦ none
  | some a ↦ elim (hex_value l) [ none ↦ none | some b ↦ some (a * 16 + b) ]
]

abbrev pub prepend : Option ℕ → Option Text → Option Text
prepend none rest = none
prepend (some b) none = none
prepend (some b) (some bs) = some (b ∷ bs)

-- `xx:xx:xx` with the given separator
unfoldable pub parse_pairs : ℕ → Text → Option Text
unfolding hex_pair
parse_pairs sep (h ∷ l ∷ []) = prepend (hex_pair h l) (some [])
parse_pairs sep (h ∷ l ∷ s ∷ rest) =
    let more = parse_pairs sep rest in if s == sep then prepend (hex_pair h l) more else none
parse_pairs sep _ = none

-- `xxxx.xxxx` with a dot
unfoldable pub parse_quads : Text → Option Text
unfolding hex_pair
parse_quads (h ∷ l ∷ h' ∷ l' ∷ []) = prepend (hex_pair h l) (prepend (hex_pair h' l') (some []))
parse_quads (h ∷ l ∷ h' ∷ l' ∷ s ∷ rest) =
    let more = parse_quads rest in
    if s == b'.' then prepend (hex_pair h l) (prepend (hex_pair h' l') more) else none
parse_quads _ = none

-- The lengths of an address, in bytes.
abbrev pub is_mac_length : ℕ → Bool
is_mac_length n = n == 6 || n == 8 || n == 20

abbrev pub address_error : Text → Error
address_error s = errorf "address %s: invalid MAC address" (s ∷ [])

abbrev pub or_address_error : Text → Option Text → Result Text
or_address_error s none = err (address_error s)
or_address_error s (some a) = ok a

-- The branches of `ParseMAC` on the third and the fifth byte of `s`.
unfoldable pub parse_mac_at : Text → ℕ → ℕ → Result Text
unfolding parse_pairs parse_quads
parse_mac_at s third fifth =
    if third == b':' || third == b'-'
    then (if not ((length s + 1) % 3 == 0) || not (is_mac_length ((length s + 1) / 3))
        then err (address_error s)
        else or_address_error s (parse_pairs third s))
    else if fifth == b'.'
    then (if not ((length s + 1) % 5 == 0) || not (is_mac_length (2 * (length s + 1) / 5))
        then err (address_error s)
        else or_address_error s (parse_quads s))
    else err (address_error s)

unfoldable pub parse_mac : Text → Result Text
unfolding parse_mac_at
parse_mac (a ∷ b ∷ third ∷ d ∷ fifth ∷ rest) =
    let s = a ∷ b ∷ third ∷ d ∷ fifth ∷ rest in
    if ltb (length s) 14 then err (address_error s) else parse_mac_at s third fifth
parse_mac s = err (address_error s)

-- A lower-case hexadecimal digit.
unfoldable pub hex_digit : ℕ → ℕ
hex_digit n = if ltb n 10 then b'0' + n else b'a' + (n - 10)

-- `HardwareAddr.String`
unfoldable pub mac_string : Text → Text
unfolding hex_digit
mac_string [] = []
mac_string (b ∷ []) = hex_digit (b / 16) ∷ hex_digit (b % 16) ∷ []
mac_string (b ∷ c ∷ bs) = hex_digit (b / 16) ∷ hex_digit (b % 16) ∷ b':' ∷ mac_string (c ∷ bs)
