-- ===== src/Prelude/Results.antt =====
-- A Go function that returns a value and an error: the value of the success branch, or the error.
use mathlib.Core.Path.{◌≡◌, refl}
use mathlib.Core.Logic.{◌⊎◌, inl, inr}
use mathlib.Core.Bool.{Bool, true, false}

pub data Result {ℓ κ} (E : Type ℓ) (A : Type κ) : Type (ℓ ⊔ κ) where
  ok : A → Result E A
  err : E → Result E A

infixl 5 ◌>>=◌ ◌>>◌
-- `if err != nil { return err }` between two calls.
abbrev pub ◌>>=◌ {ε α β} :
    {E : Type ε} {A : Type α} {B : Type β} → Result E A → (A → Result E B) → Result E B
outcome >>= rest = elim outcome [ ok value ↦ rest value | err e ↦ err e ]

-- The same after a call that returns an error alone.
abbrev pub ◌>>◌ {ε β} : {E : Type ε} {B : Type β} → Result E (Unit {0}) → Result E B → Result E B
outcome >> rest = elim outcome [ ok _ ↦ rest | err e ↦ err e ]

-- `if bad { return e }`.
abbrev pub refuse_if {ε} : {E : Type ε} → Bool → E → Result E (Unit {0})
refuse_if true e = err e
refuse_if false e = ok tt

pub Result-cases {ε α} :
    {E : Type ε} {A : Type α} (r : Result E A) → ((a : A) × (r ≡ ok a)) ⊎ ((e : E) × (r ≡ err e))
Result-cases (ok a) = inl (a, refl)
Result-cases (err e) = inr (e, refl)
