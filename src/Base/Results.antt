-- ===== src/Base/Results.antt =====
-- The exceptions of core/errors.py and the built-in ones that the modelled code raises, and the
-- type of what a call that may raise returns. A message's text is left out.
use mathlib.Core.Bool.{Bool, true, false}
use mathlib.Core.Path.{◌≡◌, refl}
use mathlib.Core.Logic.{◌⊎◌, inl, inr}

pub data Error : Type 0 where
  value_error key_error zero_division assertion_error : Error
  configuration_error invalid_address invalid_prefix invariant_violation : Error
  codec_error store_error bus_error type_error runtime_error invalid_attributes publish_error :
      Error

pub data Result {ℓ} (A : Type ℓ) : Type ℓ where
  ok : A → Result A
  err : Error → Result A

-- A call that is followed by more code: an exception ends the body.
infixl 5 ◌>>=◌
abbrev pub ◌>>=◌ {ℓ} : {A B : Type ℓ} (call : Result A) (rest : A → Result B) → Result B
call >>= rest = elim call [ ok value ↦ rest value | err raised ↦ err raised ]

-- The same where the call returns nothing.
infixl 5 ◌>>◌
abbrev pub ◌>>◌ {ℓ} : {B : Type ℓ} (call : Result (Unit {0})) (rest : Result B) → Result B
call >> rest = elim call [ ok _ ↦ rest | err raised ↦ err raised ]

-- `if bad: raise e`
abbrev pub raise_if : Bool → Error → Result (Unit {0})
raise_if true e = err e
raise_if false e = ok tt

pub Result-cases {ℓ} :
    {A : Type ℓ} (r : Result A) → ((a : A) × (r ≡ ok a)) ⊎ ((e : Error) × (r ≡ err e))
Result-cases (ok a) = inl (a, refl)
Result-cases (err e) = inr (e, refl)
