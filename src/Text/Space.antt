-- ===== src/Text/Space.antt =====
-- `strings.TrimSpace`: the white space of Unicode at both ends, by its bytes.
use mathlib.Core.List.{reverse, reverse_aux, reverse-reverse}
use vfkit.Base.{
  ℕ, zero, suc, ◌-◌, ◌≤◌, ◌<◌, Bool, true, false, ◌&&◌, List, [], ◌∷◌, ◌≡◌, refl, ap, ◌∙◌, arith,
  ◌==◌, not, leb, ltb, if◌then◌else◌, length, All,
}
use vfkit.Text.{Text}

-- `unicode.IsSpace`
abbrev spaces : List Text
spaces =
    (9 ∷ [])
    ∷ (10 ∷ [])
    ∷ (11 ∷ [])
    ∷ (12 ∷ [])
    ∷ (13 ∷ [])
    ∷ (32 ∷ [])
    ∷ (0xc2 ∷ 0x85 ∷ [])
    ∷ (0xc2 ∷ 0xa0 ∷ [])
    ∷ (0xe1 ∷ 0x9a ∷ 0x80 ∷ [])
    ∷ (0xe2 ∷ 0x80 ∷ 0x80 ∷ [])
    ∷ (0xe2 ∷ 0x80 ∷ 0x81 ∷ [])
    ∷ (0xe2 ∷ 0x80 ∷ 0x82 ∷ [])
    ∷ (0xe2 ∷ 0x80 ∷ 0x83 ∷ [])
    ∷ (0xe2 ∷ 0x80 ∷ 0x84 ∷ [])
    ∷ (0xe2 ∷ 0x80 ∷ 0x85 ∷ [])
    ∷ (0xe2 ∷ 0x80 ∷ 0x86 ∷ [])
    ∷ (0xe2 ∷ 0x80 ∷ 0x87 ∷ [])
    ∷ (0xe2 ∷ 0x80 ∷ 0x88 ∷ [])
    ∷ (0xe2 ∷ 0x80 ∷ 0x89 ∷ [])
    ∷ (0xe2 ∷ 0x80 ∷ 0x8a ∷ [])
    ∷ (0xe2 ∷ 0x80 ∷ 0xa8 ∷ [])
    ∷ (0xe2 ∷ 0x80 ∷ 0xa9 ∷ [])
    ∷ (0xe2 ∷ 0x80 ∷ 0xaf ∷ [])
    ∷ (0xe2 ∷ 0x81 ∷ 0x9f ∷ [])
    ∷ (0xe3 ∷ 0x80 ∷ 0x80 ∷ [])
    ∷ []

unfoldable pub reversed : List Text → List Text
reversed [] = []
reversed (p ∷ ps) = reverse p ∷ reversed ps

unfoldable pub begins : Text → Text → Bool
begins [] s = true
begins (c ∷ p) [] = false
begins (c ∷ p) (d ∷ s) = c == d && begins p s

-- The length of the first pattern that the text begins with, or 0.
unfoldable pub prefix_length : List Text → Text → ℕ
unfolding begins
prefix_length [] s = 0
prefix_length (p ∷ ps) s = if begins p s then length p else prefix_length ps s

-- The text without the patterns in front, and without `left` bytes of a pattern before.
unfoldable pub trim_front : List Text → ℕ → Text → Text
unfolding prefix_length
trim_front ps left [] = []
trim_front ps (suc left) (c ∷ s) = trim_front ps left s
trim_front ps zero (c ∷ s) =
    let rest = trim_front ps (prefix_length ps (c ∷ s) - 1) s in
    if prefix_length ps (c ∷ s) == 0 then c ∷ s else rest

unfoldable pub trim_space : Text → Text
unfolding reversed trim_front
trim_space s = reverse (trim_front (reversed spaces) 0 (reverse (trim_front spaces 0 s)))

-- A printing letter of ASCII
abbrev pub IsPlain : ℕ → Type 0
IsPlain c = (33 ≤ c) × (c < 128)

-- No pattern begins with a printing letter.
unfoldable all_foreign : List Text → Bool
all_foreign [] = true
all_foreign ([] ∷ ps) = false
all_foreign ((d ∷ p) ∷ ps) = not (leb 33 d && ltb d 128) && all_foreign ps

prefix_length-plain :
    (ps : List Text) (c : ℕ) (s : Text)
    → all_foreign ps ≡ true
    → IsPlain c
    → prefix_length ps (c ∷ s) ≡ 0
unfolding prefix_length begins all_foreign
prefix_length-plain [] c s e h = refl
prefix_length-plain ([] ∷ ps) c s e h = cc
prefix_length-plain ((d ∷ p) ∷ ps) c s e h = ground (arith, prefix_length-plain ps c s)

trim_front-plain :
    (ps : List Text) (s : Text) → all_foreign ps ≡ true → All IsPlain s → trim_front ps 0 s ≡ s
unfolding trim_front
trim_front-plain ps [] e h = refl
trim_front-plain ps (c ∷ s) e (h, t) = rw (prefix_length-plain ps c s e h) refl

All-reverse_aux : (s r : Text) → All IsPlain s → All IsPlain r → All IsPlain (reverse_aux s r)
All-reverse_aux [] r h k = k
All-reverse_aux (c ∷ s) r (h, t) k = All-reverse_aux s (c ∷ r) t (h, k)

-- A text with no white space stays as it is.
pub trim_space-plain : (s : Text) → All IsPlain s → trim_space s ≡ s
unfolding trim_space
trim_space-plain s h =
    ap (λ t. reverse (trim_front (reversed spaces) 0 (reverse t)))
      (trim_front-plain spaces s (unfold all_foreign in refl) h)
    ∙ (ap reverse (
          trim_front-plain (reversed spaces) (reverse s) (unfold all_foreign reversed in refl)
            (All-reverse_aux s [] h tt))
        ∙ reverse-reverse s)
