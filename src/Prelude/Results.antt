-- ===== src/Prelude/Results.antt =====
-- The errors of app/core/errors.py, and the result of a call that may raise one. The texts shown to
-- people are left out; `incomplete` keeps the two id lists that a refused submit carries.
use Prim.Native.Nat.{ℕ}
use mathlib.Core.Path.{◌≡◌, refl}
use mathlib.Core.Logic.{◌⊎◌, inl, inr}
use mathlib.Core.Bool.{Bool, true, false}
use mathlib.Core.List.{List}
use mathlib.Core.Option.{Option, none, some}

pub data Error : Type 0 where
  auth pending_activation mfa_required forbidden not_found conflict validation : Error
  incomplete : List ℕ → List ℕ → Error
  value_error overflow_error zero_division : Error
  -- what the database or its driver raises: a constraint, and a row that had to be there
  integrity_error no_result_found : Error

pub data Result {ℓ} (A : Type ℓ) : Type ℓ where
  ok : A → Result A
  err : Error → Result A

-- `if c: raise e`.
abbrev pub raise_if : Bool → Error → Result (Unit {0})
raise_if true e = err e
raise_if false e = ok tt

-- `if row is None: raise e`.
abbrev pub or_raise {ℓ} : {A : Type ℓ} → Option A → Error → Result A
or_raise none e = err e
or_raise (some a) e = ok a

-- The call went through.
abbrev pub IsOk {ℓ} : {A : Type ℓ} → Result A → Type 0
IsOk (ok a) = Unit
IsOk (err e) = ⊥

-- To split on how a call ended.
pub Result-cases {ℓ} :
    {A : Type ℓ} (x : Result A) → ((a : A) × (x ≡ ok a)) ⊎ ((e : Error) × (x ≡ err e))
Result-cases (ok a) = inl (a, refl)
Result-cases (err e) = inr (e, refl)

-- One call after another: an error ends the chain.
infixl 5 ◌>>◌
module _ {ℓ κ} {A : Type ℓ} {B : Type κ} where
  infixl 5 ◌>>=◌
  abbrev pub ◌>>=◌ : (first : Result A) (then_do : A → Result B) → Result B
  err raised >>= then_do = err raised
  ok found >>= then_do = then_do found

  -- A chain that went through did so at each link.
  pub >>=-eq-ok :
      (first : Result A) (then_do : A → Result B) {end : B}
      → (first >>= then_do) ≡ ok end
      → (found : A) × (first ≡ ok found) × (then_do found ≡ ok end)
  >>=-eq-ok (err raised) then_do h = cc
  >>=-eq-ok (ok found) then_do h = (found, refl, h)

-- The same, where the first call is a check.
abbrev pub ◌>>◌ {κ} : {B : Type κ} (check : Result (Unit {0})) (rest : Result B) → Result B
check >> rest = check >>= λ passed. rest
