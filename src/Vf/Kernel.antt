-- ===== src/Vf/Kernel.antt =====
-- pkg/vf/bootloader.go: the test for an uncompressed arm64 kernel.
use vfkit.Base.{
  ℕ, zero, suc, ◌+◌, ◌-◌, ◌≤◌, Bool, true, false, Bool-cases, [], ◌∷◌, ◌++◌, ◌≡◌, refl, ap, sym,
  ◌∙◌, inl, inr, length, ltb, if◌then◌else◌, Result, ok, ◌>>=◌, arith,
}
use vfkit.Text.{Text, text_eq, text_eq_iff}

-- Slices, `s[:n]` and `s[n:]` within the bounds
unfoldable pub take : ℕ → Text → Text
take zero s = []
take (suc n) [] = []
take (suc n) (c ∷ s) = c ∷ take n s

unfoldable pub drop : ℕ → Text → Text
drop zero s = s
drop (suc n) [] = []
drop (suc n) (c ∷ s) = drop n s

-- The sum does not overflow for the offset of the one caller.
unfoldable pub compare_bytes : Text → Text → ℕ → Bool
unfolding take drop text_eq
compare_bytes slice sub_slice start_offset =
    if ltb (length slice) (start_offset + length sub_slice)
    then false
    else text_eq (take (length sub_slice) (drop start_offset slice)) sub_slice

abbrev pub pattern_bytes : Text
pattern_bytes = 65 ∷ 82 ∷ 77 ∷ 100 ∷ []

unfoldable pub is_uncompressed_arm64_kernel : Text → Bool
unfolding compare_bytes
is_uncompressed_arm64_kernel buf = compare_bytes buf pattern_bytes 56

unfoldable pub zeros : ℕ → Text
zeros zero = []
zeros (suc n) = 0 ∷ zeros n

-- The buffer of 2048 bytes behind the one read that fills its start
unfoldable pub buffer : Text → Text
unfolding zeros
buffer bytes = bytes ++ zeros (2048 - length bytes)

-- `open_read` opens the file and reads up to 2048 bytes of it; at the end of a file, so for an empty
-- one, it fails.
unfoldable pub is_kernel_uncompressed : (Text → Result Text) → Text → Result Bool
unfolding is_uncompressed_arm64_kernel buffer
is_kernel_uncompressed open_read filename = do
  bytes ← open_read filename
  ok (is_uncompressed_arm64_kernel (buffer bytes))

take-drop : (n : ℕ) (s : Text) → s ≡ take n s ++ drop n s
unfolding take drop
take-drop zero s = refl
take-drop (suc n) [] = refl
take-drop (suc n) (c ∷ s) = ap (λ t. c ∷ t) (take-drop n s)

length-take : (n : ℕ) (s : Text) → n ≤ length s → length (take n s) ≡ n
unfolding take
length-take zero s le = refl
length-take (suc n) [] le = omega arith
length-take (suc n) (c ∷ s) le = ap suc (length-take n s (omega arith))

-- What the buffer of an uncompressed kernel is: 56 bytes, then the pattern.
pub record IsArm64Kernel (buf : Text) : Type 0 where
  pub header : Text
  pub rest : Text
  pub header_length : length header ≡ 56
  pub buf_is : buf ≡ header ++ (pattern_bytes ++ rest)

compare_bytes-eq-true :
    (slice sub_slice : Text) (n : ℕ)
    → compare_bytes slice sub_slice n ≡ true
    → (n ≤ length slice) × (take (length sub_slice) (drop n slice) ≡ sub_slice)
unfolding compare_bytes
compare_bytes-eq-true slice sub_slice n e =
    elim (Bool-cases (ltb (length slice) (n + length sub_slice))) [
      | inl short ↦ cc
      | inr fits ↦ (
        ground arith,
        (text_eq_iff _ sub_slice).0 (
            sym (
              ap
                (λ b.
                  if b then false else text_eq (take (length sub_slice) (drop n slice)) sub_slice)
                fits)
            ∙ e),
      )
    ]

pub is_uncompressed_arm64_kernel-IsArm64Kernel :
    (buf : Text) → is_uncompressed_arm64_kernel buf ≡ true → IsArm64Kernel buf
unfolding is_uncompressed_arm64_kernel
is_uncompressed_arm64_kernel-IsArm64Kernel buf e =
    let (fits, pattern_is) = compare_bytes-eq-true buf pattern_bytes 56 e in
    record {
      header = take 56 buf;
      rest = drop 4 (drop 56 buf);
      header_length = length-take 56 buf fits;
      buf_is =
          take-drop 56 buf
          ∙ ap (λ t. take 56 buf ++ t)
              (take-drop 4 (drop 56 buf) ∙ ap (λ t. t ++ drop 4 (drop 56 buf)) pattern_is);
    }
