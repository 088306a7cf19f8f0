-- ===== src/Base/Results.antt =====
-- `Result<T, E>` of the source, with `?` as a do block.
use mathlib.Core.Path.{◌≡◌, refl}
use mathlib.Core.Bool.{Bool, true, false}
use mathlib.Core.Option.{Option, none, some}

pub data Result {ℓ κ} (E : Type ℓ) (A : Type κ) : Type (ℓ ⊔ κ) where
  err : E → Result E A
  ok : A → Result E A

-- `?` hands an error to the caller, and goes on with a value.
module _ {ℓ κ μ} {E : Type ℓ} {A : Type κ} {B : Type μ} where
  infixl 5 ◌>>=◌
  abbrev pub ◌>>=◌ : Result E A → (A → Result E B) → Result E B
  first >>= rest = elim first [ err failure ↦ err failure | ok value ↦ rest value ]

  infixl 5 ◌>>◌
  abbrev pub ◌>>◌ : Result E A → Result E B → Result E B
  first >> rest = elim first [ err failure ↦ err failure | ok _ ↦ rest ]

  -- A chain that succeeds has a first part that did.
  pub >>=-eq-ok :
      (first : Result E A) (rest : A → Result E B) {final : B}
      → (first >>= rest) ≡ ok final
      → (value : A) × (first ≡ ok value) × (rest value ≡ ok final)
  >>=-eq-ok (err failure) rest done = cc
  >>=-eq-ok (ok value) rest done = (value, refl, done)

  pub >>-eq-ok :
      (first : Result E A) (rest : Result E B) {final : B}
      → (first >> rest) ≡ ok final
      → rest ≡ ok final
  >>-eq-ok (err failure) rest done = cc
  >>-eq-ok (ok value) rest done = done

module _ {ℓ κ} {E : Type ℓ} {A : Type κ} where
  abbrev pub ok_or : Option A → E → Result E A
  ok_or none e = err e
  ok_or (some a) e = ok a

-- `if test { return Err(e) }`
abbrev pub reject_if {ℓ} : {E : Type ℓ} → Bool → E → Result E (Unit {0})
reject_if test failure = elim test [ true ↦ err failure | false ↦ ok tt ]

-- What comes behind a test that was passed.
pub reject_if-eq-ok {ℓ κ} :
    {E : Type ℓ} {A : Type κ} (test : Bool) (failure : E) (rest : Result E A) {final : A}
    → (reject_if test failure >> rest) ≡ ok final
    → (test ≡ false) × (rest ≡ ok final)
reject_if-eq-ok true failure rest done = cc
reject_if-eq-ok false failure rest done = (refl, done)
