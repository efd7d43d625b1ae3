-- ===== src/Cmdline/Flags.antt =====
-- A flag that is given several times: `Set` is called once for each.
use vfkit.Base.{
  true, false, List, [], ◌∷◌, ◌++◌, ◌≡◌, Result, Result-cases, ok, inl, inr, ◌>>=◌, for_each,
  append_assoc, append-nil,
}
use vfkit.Text.{Text}
use vfkit.Cmdline.{StringSliceValue, set_value, parse_string}

-- The values of all flags, in order, or the error of the first bad one.
pub parse_each : List Text → Result (List Text)
parse_each [] = ok []
parse_each (v ∷ vs) = do a ← parse_string v; b ← parse_each vs; ok (a ++ b)

for_each-set_value :
    (a vs : List Text)
    → for_each set_value (record { value = a; changed = true }) vs
      ≡ (parse_each vs >>= λ all. ok (record { value = a ++ all; changed = true }))
unfolding for_each set_value parse_each
for_each-set_value a [] = rw append-nil
for_each-set_value a (v ∷ vs) = elim (Result-cases (parse_string v)) [
  | inr (e, p) ↦ rw p
  | inl (b, p) ↦
      rw (p, for_each-set_value (a ++ b) vs)
        (elim (Result-cases (parse_each vs)) [
          | inr (e, q) ↦ rw q
          | inl (c, q) ↦ rw (q, append_assoc)
        ])
]

-- The first flag replaces the default value of the slice, the others append to it; the first bad
-- one is the error of all.
pub set_value_each :
    (s : StringSliceValue) (v : Text) (vs : List Text)
    → s.changed ≡ false
    → for_each set_value s (v ∷ vs)
      ≡ (parse_each (v ∷ vs) >>= λ all. ok (record { value = all; changed = true }))
unfolding for_each set_value parse_each
set_value_each s v vs h = elim (Result-cases (parse_string v)) [
  | inr (e, p) ↦ rw p
  | inl (b, p) ↦
      rw (p, h, for_each-set_value b vs)
        (elim (Result-cases (parse_each vs)) [ inr (e, q) ↦ rw q | inl (c, q) ↦ rw q ])
]
