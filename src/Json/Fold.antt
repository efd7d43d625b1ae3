-- ===== src/Json/Fold.antt =====
-- The names that encoding/json takes for the same.
use vfkit.Base.{suc, zero, ℕ, ◌-◌, Bool, true, false, ◌&&◌, [], ◌∷◌, ◌==◌, leb, if◌then◌else◌}
use vfkit.Text.{Text}

abbrev in_range : ℕ → ℕ → ℕ → Bool
in_range low high c = leb low c && leb c high

abbrev to_upper : ℕ → ℕ
to_upper c = if in_range b'a' b'z' c then c - 32 else c

-- `s` begins with the bytes
unfoldable pub begins : Text → Text → Bool
begins [] s = true
begins (c ∷ p) [] = false
begins (c ∷ p) (d ∷ s) = c == d && begins p s

abbrev long_s : Text
long_s = 0xc5 ∷ 0xbf ∷ []

abbrev kelvin_sign : Text
kelvin_sign = 0xe2 ∷ 0x84 ∷ 0xaa ∷ []

-- The text without `left` bytes in front, folded.
unfoldable pub fold_letters : ℕ → Text → Text
unfolding begins
fold_letters left [] = []
fold_letters (suc left) (c ∷ s) = fold_letters left s
fold_letters zero (c ∷ s) =
    let next = fold_letters 0 s in
    let behind_s = fold_letters 1 s in
    let behind_k = fold_letters 2 s in
    if begins long_s (c ∷ s)
    then b'S' ∷ behind_s
    else if begins kelvin_sign (c ∷ s)
    then b'K' ∷ behind_k
    else to_upper c ∷ next

-- `foldName`: ASCII letters in upper case, the long s and the Kelvin sign as the letters that they
-- are folded with. Other letters outside ASCII never fold to a field's name.
unfoldable pub fold_name : Text → Text
unfolding fold_letters
fold_name s = fold_letters 0 s
