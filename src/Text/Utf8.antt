-- ===== src/Text/Utf8.antt =====
-- Strings as UTF-8: what a loop over the runes of a Go string writes back, and what encoding/json
-- writes of one. A byte that begins no letter becomes the replacement character in both.
pub mod Append
use vfkit.Base.{
  ℕ, suc, zero, ◌-◌, ◌<◌, All, refl, ap, ltb-eq-true, Bool, true, false, ◌&&◌, [], ◌∷◌, ◌≡◌, ◌==◌,
  ltb, leb, if◌then◌else◌,
}
use vfkit.Text.{Text}

abbrev in_range : ℕ → ℕ → ℕ → Bool
in_range low high c = leb low c && leb c high

-- A byte behind the first one of a letter
abbrev is_tail : ℕ → Bool
is_tail c = in_range 0x80 0xbf c

-- Whether the second byte of a letter may follow the first one.
unfoldable pub second_is_good : ℕ → ℕ → Bool
second_is_good a b =
    if a == 0xe0
    then in_range 0xa0 0xbf b
    else if a == 0xed
    then in_range 0x80 0x9f b
    else if a == 0xf0
    then in_range 0x90 0xbf b
    else if a == 0xf4
    then in_range 0x80 0x8f b
    else is_tail b

-- `utf8.DecodeRune`: the number of bytes of the first letter, or 0.
unfoldable pub letter_length : Text → ℕ
unfolding second_is_good
letter_length [] = 0
letter_length (a ∷ []) = if ltb a 0x80 then 1 else 0
letter_length (a ∷ b ∷ []) =
    if ltb a 0x80 then 1 else if in_range 0xc2 0xdf a && is_tail b then 2 else 0
letter_length (a ∷ b ∷ c ∷ []) =
    if ltb a 0x80
    then 1
    else if in_range 0xc2 0xdf a && is_tail b
    then 2
    else if in_range 0xe0 0xef a && second_is_good a b && is_tail c
    then 3
    else 0
letter_length (a ∷ b ∷ c ∷ d ∷ _) =
    if ltb a 0x80
    then 1
    else if in_range 0xc2 0xdf a && is_tail b
    then 2
    else if in_range 0xe0 0xef a && second_is_good a b && is_tail c
    then 3
    else if in_range 0xf0 0xf4 a && second_is_good a b && is_tail c && is_tail d
    then 4
    else 0

-- The text with `left` more bytes of a letter in front; a byte that begins no letter becomes the
-- replacement character.
unfoldable pub replace_invalid : ℕ → Text → Text
unfolding letter_length
replace_invalid left [] = []
replace_invalid (suc left) (c ∷ s) = c ∷ replace_invalid left s
replace_invalid zero (c ∷ s) =
    let bad = replace_invalid 0 s in
    let good = replace_invalid (letter_length (c ∷ s) - 1) s in
    if letter_length (c ∷ s) == 0 then 0xef ∷ 0xbf ∷ 0xbd ∷ bad else c ∷ good

-- The runes of a Go string, written as UTF-8
unfoldable pub to_valid_utf8 : Text → Text
unfolding replace_invalid
to_valid_utf8 s = replace_invalid 0 s

-- A text that is written as it is
abbrev pub IsUtf8 : Text → Type 0
IsUtf8 s = to_valid_utf8 s ≡ s

pub letter_length-ascii : (c : ℕ) (s : Text) → c < 0x80 → letter_length (c ∷ s) ≡ 1
unfolding letter_length
letter_length-ascii c [] h = rw (ltb-eq-true c 0x80 h) refl
letter_length-ascii c (_ ∷ []) h = rw (ltb-eq-true c 0x80 h) refl
letter_length-ascii c (_ ∷ _ ∷ []) h = rw (ltb-eq-true c 0x80 h) refl
letter_length-ascii c (_ ∷ _ ∷ _ ∷ s) h = rw (ltb-eq-true c 0x80 h) refl

-- ASCII is valid.
pub ascii-IsUtf8 : (s : Text) → All (λ c. c < 0x80) s → IsUtf8 s
unfolding to_valid_utf8 replace_invalid
ascii-IsUtf8 [] h = refl
ascii-IsUtf8 (c ∷ s) (h, t) = rw (letter_length-ascii c s h) (ap (λ r. c ∷ r) (ascii-IsUtf8 s t))
