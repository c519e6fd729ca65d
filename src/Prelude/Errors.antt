-- ===== src/Prelude/Errors.antt =====
-- Go's pair of a value and an error, of which the caller reads one.
use mathlib.Core.List.{List}
use Prim.Native.Nat.{ℕ}
use mathlib.Core.Logic.{◌⊎◌, inl, inr}
use mathlib.Core.Path.{◌≡◌, refl}

-- The errors that the program declares, and those of drivers and of the operating system, which
-- carry their text.
pub data Error : Type 0 where
  invalid_ip repository_required record_nil record_not_found domain_required : Error
  other : List ℕ → Error

pub data Result {ℓ} (A : Type ℓ) : Type ℓ where
  ok : A → Result A
  err : Error → Result A

-- To split on the result of a call that returns an error only.
pub Result-cases : (x : Result (Unit {0})) → (x ≡ ok tt) ⊎ ((e : Error) × (x ≡ err e))
Result-cases (ok _) = inl refl
Result-cases (err e) = inr (e, refl)
