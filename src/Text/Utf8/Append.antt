-- ===== src/Text/Utf8/Append.antt =====
-- Texts that are joined by ASCII: each of them is decoded as it is alone.
use vfkit.Base.{
  sym, ==_eq-false, List, ℕ, suc, zero, ◌-◌, ◌+◌, ◌<◌, ◌≤◌, All, refl, ap, arith, true, [], ◌∷◌,
  ◌++◌, ◌≡◌, ◌==◌, length, if◌then◌else◌, ◌∙◌, Bool-cases, inl, inr, ltb,
}
use vfkit.Text.{Text, join}
use vfkit.Text.Utf8.{
  to_valid_utf8, IsUtf8, letter_length, letter_length-ascii, replace_invalid, second_is_good,
}

-- A byte of ASCII ends no letter that began in front of it.
letter_length-append :
    (a : ℕ) (s : Text) (c : ℕ) (t : Text)
    → c < 0x80
    → letter_length (a ∷ s ++ c ∷ t) ≡ letter_length (a ∷ s)
unfolding letter_length second_is_good
letter_length-append a [] c [] h = ground arith
letter_length-append a [] c (_ ∷ []) h = ground arith
letter_length-append a [] c (_ ∷ _ ∷ t) h = ground arith
letter_length-append a (b ∷ []) c [] h = ground arith
letter_length-append a (b ∷ []) c (_ ∷ t) h = ground arith
letter_length-append a (b ∷ d ∷ []) c t h = ground arith
letter_length-append a (b ∷ d ∷ e ∷ s) c t h = refl

letter_length-le : (a : ℕ) (s : Text) → letter_length (a ∷ s) ≤ suc (length s)
unfolding letter_length second_is_good
letter_length-le a [] = ground arith
letter_length-le a (b ∷ []) = ground arith
letter_length-le a (b ∷ c ∷ []) = ground arith
letter_length-le a (b ∷ c ∷ d ∷ s) = ground arith

replace_invalid-append :
    (left : ℕ) (s : Text) (c : ℕ) (t : Text)
    → left ≤ length s
    → c < 0x80
    → replace_invalid left (s ++ c ∷ t) ≡ replace_invalid left s ++ c ∷ replace_invalid 0 t
unfolding replace_invalid
replace_invalid-append zero [] c t le h = rw (letter_length-ascii c t h) refl
replace_invalid-append (suc left) [] c t le h = ground arith
replace_invalid-append (suc left) (a ∷ s) c t le h =
    ap (λ r. a ∷ r) (replace_invalid-append left s c t (omega arith) h)
replace_invalid-append zero (a ∷ s) c t le h =
    rw (letter_length-append a s c t h) (elim (Bool-cases (letter_length (a ∷ s) == 0)) [
      | inl e ↦
          rw e (ap (λ r. 0xef ∷ 0xbf ∷ 0xbd ∷ r) (replace_invalid-append 0 s c t (omega arith) h))
      | inr e ↦
          let small = letter_length-le a s in
          rw e (
            ap (λ r. a ∷ r)
              (replace_invalid-append (letter_length (a ∷ s) - 1) s c t (omega arith) h))
    ])

-- A byte of ASCII between two texts
pub to_valid_utf8-append :
    (s : Text) (c : ℕ) (t : Text)
    → c < 0x80
    → to_valid_utf8 (s ++ c ∷ t) ≡ to_valid_utf8 s ++ c ∷ to_valid_utf8 t
unfolding to_valid_utf8
to_valid_utf8-append s c t h = replace_invalid-append 0 s c t (omega arith) h

pub IsUtf8-append :
    (s : Text) (c : ℕ) (t : Text) → c < 0x80 → IsUtf8 s → IsUtf8 t → IsUtf8 (s ++ c ∷ t)
IsUtf8-append s c t h u v = to_valid_utf8-append s c t h ∙ rw (u, v) refl

-- ASCII in front of a text
pub ascii-append-IsUtf8 : (s t : Text) → All (λ c. c < 0x80) s → IsUtf8 t → IsUtf8 (s ++ t)
ascii-append-IsUtf8 [] t h u = u
ascii-append-IsUtf8 (c ∷ s) t (h, k) u =
    to_valid_utf8-append [] c (s ++ t) h
    ∙ ap (λ r. to_valid_utf8 [] ++ c ∷ r) (ascii-append-IsUtf8 s t k u)
    ∙ unfold to_valid_utf8 replace_invalid in refl

pub IsUtf8-join :
    (sep : ℕ) (s : Text) (l : List Text)
    → sep < 0x80
    → All IsUtf8 (s ∷ l)
    → IsUtf8 (join (sep ∷ []) (s ∷ l))
unfolding join
IsUtf8-join sep s [] h (u, _) = u
IsUtf8-join sep s (t ∷ l) h (u, v) =
    IsUtf8-append s sep (join (sep ∷ []) (t ∷ l)) h u (IsUtf8-join sep t l h v)

-- The number of a byte of ASCII in a text
abbrev pub count : ℕ → Text → ℕ
count q [] = 0
count q (c ∷ s) = (if c == q then 1 else 0) + count q s

count_high : (q c : ℕ) (s : Text) → q < 0x80 → 0x80 ≤ c → count q (c ∷ s) ≡ count q s
count_high q c s h k = rw (==_eq-false c q (omega arith)) (omega arith)

invalid-high : (c : ℕ) (s : Text) → (letter_length (c ∷ s) == 0) ≡ true → 0x80 ≤ c
invalid-high c s e = elim (Bool-cases (ltb c 0x80)) [
  | inl low ↦ let one = letter_length-ascii c s (ground arith) in ground arith
  | inr high ↦ ground arith
]

count-replace_invalid :
    (q left : ℕ) (s : Text) → q < 0x80 → count q (replace_invalid left s) ≡ count q s
unfolding replace_invalid
count-replace_invalid q left [] h = refl
count-replace_invalid q (suc left) (c ∷ s) h =
    ap (λ n. (if c == q then 1 else 0) + n) (count-replace_invalid q left s h)
count-replace_invalid q zero (c ∷ s) h = elim (Bool-cases (letter_length (c ∷ s) == 0)) [
  | inl e ↦ rw e (
      count_high q 0xef (0xbf ∷ 0xbd ∷ replace_invalid 0 s) h (omega arith)
      ∙ count_high q 0xbf (0xbd ∷ replace_invalid 0 s) h (omega arith)
      ∙ count_high q 0xbd (replace_invalid 0 s) h (omega arith)
      ∙ count-replace_invalid q 0 s h
      ∙ sym (count_high q c s h (invalid-high c s e)))
  | inr e ↦ rw e (
      ap (λ n. (if c == q then 1 else 0) + n)
        (count-replace_invalid q (letter_length (c ∷ s) - 1) s h))
]

pub count-to_valid_utf8 : (q : ℕ) (s : Text) → q < 0x80 → count q (to_valid_utf8 s) ≡ count q s
unfolding to_valid_utf8
count-to_valid_utf8 q s h = count-replace_invalid q 0 s h
