-- ===== src/Base/Values.antt =====
-- Statements about the value of a result.
use mathlib.Core.Path.{◌≡◌, subst}
use mathlib.Core.Bool.{Bool, true, false}
use vfkit.Base.Tests.{if◌then◌else◌}
use vfkit.Base.Errors.{Error, Result, ok, ◌>>=◌, ◌>>◌, fail_if, >>=-eq-ok}

-- What holds of the value of a result, if there is one.
abbrev pub Gives {ℓ κ} : {A : Type ℓ} → (A → Type κ) → Result A → Type (ℓ ⊔ κ)
Gives {A = A} P r = (a : A) → r ≡ ok a → P a

pub Gives-ok {ℓ κ} : {A : Type ℓ} (P : A → Type κ) (a : A) → P a → Gives P (ok a)
Gives-ok P a p b e = subst P (cc) p

pub Gives-bind {ℓ κ μ} :
    {A : Type ℓ} {B : Type μ} (P : B → Type κ) (r : Result A) (f : A → Result B)
    → ((a : A) → Gives P (f a))
    → Gives P (r >>= f)
Gives-bind P r f h b e = let (a, made, rest) = >>=-eq-ok r f e in h a b rest

pub Gives-step {ℓ κ μ ν} :
    {A : Type ℓ} {B : Type μ} (Q : A → Type ν) (P : B → Type κ) (r : Result A) (f : A → Result B)
    → Gives Q r
    → ((a : A) → Q a → Gives P (f a))
    → Gives P (r >>= f)
Gives-step Q P r f q h b e = let (a, made, rest) = >>=-eq-ok r f e in h a (q a made) b rest

pub Gives-if {ℓ κ} :
    {A : Type ℓ} (P : A → Type κ) (b : Bool) {r s : Result A}
    → Gives P r
    → Gives P s
    → Gives P (if b then r else s)
Gives-if P true p q = p
Gives-if P false p q = q

pub Gives-check {ℓ κ} :
    {A : Type ℓ} (P : A → Type κ) (b : Bool) (e : Error) (r : Result A)
    → Gives P r
    → Gives P (fail_if b e >> r)
Gives-check P true e r h = λ a q. cc
Gives-check P false e r h = h
