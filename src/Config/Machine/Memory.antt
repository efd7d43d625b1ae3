-- ===== src/Config/Machine/Memory.antt =====
-- `roundToMiB`.
use vfkit.Base.{ℕ, ◌+◌, ◌-◌, ◌*◌, ◌/◌, ◌%◌, ◌^◌, ◌≤◌, ◌<◌, ◌≡◌, ◌∙◌, ap, arith}
use vfkit.Config.Machine.{Units, IsUnits, round_to_mib}

module _ (u : Units) (laws : IsUnits u) where
  round_to_mib-eq :
      (value : ℕ)
      → round_to_mib u value ≡ ((value + (1 * 2 ^ 20) % 2 ^ 64 + (2 ^ 64 - 1)) % 2 ^ 64) / 2 ^ 20
  unfolding round_to_mib
  round_to_mib-eq value =
      laws.to_mib_is _
      ∙ ap (λ (m : ℕ). ((value + m + (2 ^ 64 - 1)) % 2 ^ 64) / 2 ^ 20) (laws.mib_to_bytes_is 1)

  -- The result is the least number of mebibytes that holds the value, if the value is not within a
  -- mebibyte of 2 ^ 64.
  pub round_to_mib_bounds :
      (value : ℕ)
      → value + 2 ^ 20 ≤ 2 ^ 64
      → (value ≤ round_to_mib u value * 2 ^ 20) × (round_to_mib u value * 2 ^ 20 < value + 2 ^ 20)
  round_to_mib_bounds value h = rw (round_to_mib-eq value) (omega arith, omega arith)

  -- For a value below 2 ^ 64 but within a mebibyte of it, the sum wraps round and the result is 0.
  pub round_to_mib_wraps :
      (value : ℕ) → 2 ^ 64 < value + 2 ^ 20 → value < 2 ^ 64 → round_to_mib u value ≡ 0
  round_to_mib_wraps value h k = rw (round_to_mib-eq value) (omega arith)
