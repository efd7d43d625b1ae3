-- ===== src/Text/Split.antt =====
-- A text that is put together from parts with no separator splits into those parts.
use vfkit.Base.{ℕ, [], ◌∷◌, ◌++◌, ◌≡◌, ◌≢◌, refl, arith, All}
use vfkit.Text.{Text, split, split_two}

abbrev pub Lacks : ℕ → Text → Type 0
Lacks b = All (λ c. c ≢ b)

module _ (sep : ℕ) where
  pub split-Lacks : (p : Text) → Lacks sep p → split sep p ≡ p ∷ []
  unfolding split
  split-Lacks [] _ = refl
  split-Lacks (c ∷ p) (h, t) = ground (arith, split-Lacks p t)

  pub split-append :
      (p rest : Text) → Lacks sep p → split sep (p ++ sep ∷ rest) ≡ p ∷ split sep rest
  unfolding split
  split-append [] rest _ = ground arith
  split-append (c ∷ p) rest (h, t) = ground (arith, split-append p rest t)

  pub split_two-append :
      (p rest : Text) → Lacks sep p → split_two sep (p ++ sep ∷ rest) ≡ p ∷ rest ∷ []
  unfolding split_two
  split_two-append [] rest _ = ground arith
  split_two-append (c ∷ p) rest (h, t) = ground (arith, split_two-append p rest t)

  pub split_two-Lacks : (p : Text) → Lacks sep p → split_two sep p ≡ p ∷ []
  unfolding split_two
  split_two-Lacks [] _ = refl
  split_two-Lacks (c ∷ p) (h, t) = ground (arith, split_two-Lacks p t)
