-- ===== src/Text.antt =====
-- Go strings as lists of bytes, and what the code uses of package strings: `==`, `Split`, `SplitN`,
-- `Join`, `HasPrefix`, `HasSuffix` and `Trim` at one byte; `TrimQuotes` and `StringInSlice` of
-- pkg/util/strings.go.
pub mod Split
pub mod Join
pub mod Utf8
pub mod Path
pub mod Space
use Prim.Native.Char.{code}
use mathlib.Core.List.{reverse}
use vfkit.Base.{
  ℕ, String, Bool, true, false, ◌&&◌, List, [], ◌∷◌, ◌++◌, ◌≡◌, refl, ◌↔◌, ◌==◌, if◌then◌else◌,
  arith, Option, none, some,
}

abbrev pub Text : Type 0
Text = List ℕ

-- The code points of a literal: its bytes, if it is ASCII.
unfoldable pub codes : String → Text
codes String.[] = []
codes (String.◌∷◌ c s) = code c ∷ codes s

unfoldable pub text_eq : Text → Text → Bool
text_eq [] [] = true
text_eq (x ∷ xs) (y ∷ ys) = x == y && text_eq xs ys
text_eq _ _ = false

pub text_eq_iff : (s t : Text) → (text_eq s t ≡ true) ↔ (s ≡ t)
unfolding text_eq
text_eq_iff (x ∷ s) (y ∷ t) = ground (arith, text_eq_iff s t)
text_eq_iff _ _ = ground arith

-- `s == "literal"`
unfoldable pub is : Text → String → Bool
unfolding codes text_eq
is s name = text_eq s (codes name)

-- `s == ""`
abbrev pub is_empty : Text → Bool
is_empty [] = true
is_empty (_ ∷ _) = false

abbrev pub comma : ℕ
comma = b','

abbrev pub equals_sign : ℕ
equals_sign = b'='

abbrev pub quote : ℕ
quote = b'"'

-- A byte in front of the first part.
abbrev pub cons_head : ℕ → List Text → List Text
cons_head c [] = (c ∷ []) ∷ []
cons_head c (p ∷ ps) = (c ∷ p) ∷ ps

-- `strings.Split` at a separator of one byte.
unfoldable pub split : ℕ → Text → List Text
split sep [] = [] ∷ []
split sep (c ∷ s) = let rest = split sep s in if c == sep then [] ∷ rest else cons_head c rest

-- `strings.SplitN(s, sep, 2)`
unfoldable pub split_two : ℕ → Text → List Text
split_two sep [] = [] ∷ []
split_two sep (c ∷ s) =
    let rest = split_two sep s in if c == sep then [] ∷ s ∷ [] else cons_head c rest

-- `strings.Join`
unfoldable pub join : Text → List Text → Text
join sep [] = []
join sep (p ∷ []) = p
join sep (p ∷ q ∷ ps) = p ++ (sep ++ join sep (q ∷ ps))

abbrev pub starts_with_quote : Text → Bool
starts_with_quote [] = false
starts_with_quote (c ∷ _) = c == quote

unfoldable pub trim_left : Text → Text
trim_left [] = []
trim_left (c ∷ s) = let rest = trim_left s in if c == quote then rest else c ∷ s

-- `TrimQuotes`: `HasSuffix` reads the text from its end.
unfoldable pub trim_quotes : Text → Text
unfolding trim_left
trim_quotes s =
    if starts_with_quote s && starts_with_quote (reverse s)
    then reverse (trim_left (reverse (trim_left s)))
    else s

-- `StringInSlice`
unfoldable pub string_in_slice : Text → List Text → Bool
string_in_slice st [] = false
string_in_slice st (s ∷ sl) = if text_eq st s then true else string_in_slice st sl
