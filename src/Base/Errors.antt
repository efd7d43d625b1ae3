-- ===== src/Base/Errors.antt =====
-- Results of fallible functions, and their loops.
-- An error holds the format string of its `fmt.Errorf` call, and the texts that fill it; `wrapf`
-- is for a format that is filled by another error, `not_exist` is `os.ErrNotExist`, and `panic` a
-- run-time panic.
use Prim.Native.Nat.{ℕ}
use Prim.Native.String.{String}
use mathlib.Core.Path.{◌≡◌, refl, subst}
use mathlib.Core.Logic.{◌⊎◌, inl, inr}
use mathlib.Core.Bool.{Bool, true, false}
use mathlib.Core.List.{List, [], ◌∷◌, ◌++◌}

pub data Error : Type 0 where
  errorf : String → List (List ℕ) → Error
  wrapf : String → Error → Error
  not_exist : Error
  panic : String → Error

-- A Go pair `(value, err)` with one of the two set.
pub data Result {ℓ} (Value : Type ℓ) : Type ℓ where
  err : (failure : Error) → Result Value
  ok : (value : Value) → Result Value

-- `if test { return errorf(...) }`
abbrev pub fail_if : Bool → Error → Result (Unit {0})
fail_if false _ = ok tt
fail_if true failure = err failure

infixl 5 ◌>>=◌
abbrev pub ◌>>=◌ {ℓ κ} :
    {Value : Type ℓ} {Next : Type κ} → Result Value → (Value → Result Next) → Result Next
err failure >>= _ = err failure
ok value >>= continue = continue value

infixl 5 ◌>>◌
abbrev pub ◌>>◌ {ℓ} : {Next : Type ℓ} → Result (Unit {0}) → Result Next → Result Next
check >> after = check >>= λ _. after

pub Result-cases {ℓ} :
    {Value : Type ℓ} (r : Result Value) → ((v : Value) × (r ≡ ok v)) ⊎ ((e : Error) × (r ≡ err e))
Result-cases (err failure) = inr (failure, refl)
Result-cases (ok value) = inl (value, refl)

-- `if err != nil { return fmt.Errorf(format, err) }`
abbrev pub wrapped {ℓ} : {A : Type ℓ} → String → Result A → Result A
wrapped format (err e) = err (wrapf format e)
wrapped format (ok a) = ok a

pub wrapped-eq-ok {ℓ} :
    {A : Type ℓ} (format : String) (r : Result A) (a : A) → wrapped format r ≡ ok a → r ≡ ok a
wrapped-eq-ok format (ok x) a e = e
wrapped-eq-ok format (err x) a e = cc

-- Both parts of a chain that returns a value return one.
pub >>=-eq-ok {ℓ κ} :
    {Value : Type ℓ} {Next : Type κ} {w : Next} (r : Result Value) (next : Value → Result Next)
    → (r >>= next) ≡ ok w
    → (v : Value) × (r ≡ ok v) × (next v ≡ ok w)
>>=-eq-ok (err failure) next e = cc
>>=-eq-ok (ok value) next e = (value, refl, e)

-- A loop whose body may return an error.
unfoldable pub for_each {ℓ κ} :
    {S : Type ℓ} {A : Type κ} → (S → A → Result S) → S → List A → Result S
for_each step s [] = ok s
for_each step s (a ∷ as') = do t ← step s a; for_each step t as'

-- An invariant of the body is one of the loop.
pub for_each_inv {ℓ κ μ} :
    {S : Type ℓ} {A : Type κ} (P : S → Type μ) (step : S → A → Result S)
    → ((s : S) (a : A) (t : S) → P s → step s a ≡ ok t → P t)
    → (s : S) (l : List A) (t : S) → P s
    → for_each step s l ≡ ok t
    → P t
unfolding for_each
for_each_inv P step keep s [] t p e = subst P (cc) p
for_each_inv P step keep s (a ∷ l) t p e =
    let (u, first, rest) = >>=-eq-ok (step s a) (λ v. for_each step v l) e in
    for_each_inv P step keep u l t (keep s a u p first) rest

>>=-bind {ℓ κ} :
    {S : Type ℓ} {T : Type κ} (m : Result S) (f : S → Result T) (g : T → Result T)
    (h : S → Result T)
    → ((s : S) → h s ≡ (f s >>= g))
    → (m >>= h) ≡ ((m >>= f) >>= g)
>>=-bind (ok s) f g h e = e s
>>=-bind (err _) f g h e = refl

pub for_each-append {ℓ κ} :
    {S : Type ℓ} {A : Type κ} (step : S → A → Result S) (s : S) (xs ys : List A)
    → for_each step s (xs ++ ys) ≡ (for_each step s xs >>= λ t. for_each step t ys)
unfolding for_each
for_each-append step s [] ys = refl
for_each-append step s (x ∷ xs) ys =
    >>=-bind (step s x) (λ t. for_each step t xs) (λ t. for_each step t ys)
      (λ t. for_each step t (xs ++ ys)) (λ t. for_each-append step t xs ys)

-- A value that is checked and then returned.
pub checked-eq-ok {ℓ} :
    {Value : Type ℓ} {v : Value} (r : Result Value) (check : Value → Result (Unit {0}))
    → (r >>= λ x. check x >> ok x) ≡ ok v
    → (r ≡ ok v) × (check v ≡ ok tt)
checked-eq-ok r check e =
    let (x, made, rest) = >>=-eq-ok r (λ x. check x >> ok x) e in
    let (u, passed, same) = >>=-eq-ok (check x) (λ _. ok x) rest in (cc, cc)
