-- ===== src/Base/Result.antt =====
-- Python's exceptions as values: a call returns, or raises an error of its module's own type.
use mathlib.Core.Path.{◌≡◌, refl}
use mathlib.Core.Logic.{◌⊎◌, inl, inr}
use mathlib.Core.Bool.{Bool, true, false}
use mathlib.Core.Option.{Option, none, some}

pub data Result (E A : Type 0) : Type 0 where
  ok : A → Result E A
  err : E → Result E A

-- `if test: raise error`
abbrev pub raise_if : {E : Type 0} → Bool → E → Result E (Unit {0})
raise_if false _ = ok tt
raise_if true error = err error

module _ {E A : Type 0} where
  -- `if found is None: raise error`
  abbrev pub or_raise : Option A → E → Result E A
  or_raise (some found) _ = ok found
  or_raise none error = err error

  pub Result-cases : (r : Result E A) → ((a : A) × (r ≡ ok a)) ⊎ ((e : E) × (r ≡ err e))
  Result-cases (ok a) = inl (a, refl)
  Result-cases (err e) = inr (e, refl)

-- What follows a call runs only if the call returns.
infixl 5 ◌>>=◌ ◌>>◌
abbrev pub ◌>>=◌ : {E A B : Type 0} → Result E A → (A → Result E B) → Result E B
◌>>=◌ call rest = elim call [ ok value ↦ rest value | err error ↦ err error ]

abbrev pub ◌>>◌ : {E B : Type 0} → Result E (Unit {0}) → Result E B → Result E B
◌>>◌ check rest = check >>= λ _. rest

-- A sequence returned: so did its first call, and then the rest of it on that value.
pub returned :
    {E A B : Type 0} (rest : A → Result E B) (final : B) (call : Result E A)
    → (call >>= rest) ≡ ok final
    → (value : A) × (call ≡ ok value) × (rest value ≡ ok final)
returned rest final (ok value) done = (value, refl, done)
returned rest final (err error) done = absurd (cc)

-- What holds of the value of a call that returns.
abbrev pub Returns {κ} : {E A : Type 0} → (A → Type κ) → Result E A → Type κ
Returns P (ok value) = P value
Returns P (err error) = Unit

-- A check and what follows it returned: so the check did not raise.
pub passed :
    {E B : Type 0} (fails : Bool) (error : E) (rest : Result E B) (final : B)
    → (raise_if fails error >> rest) ≡ ok final
    → (fails ≡ false) × (rest ≡ ok final)
passed false error rest final h = (refl, h)
passed true error rest final h = absurd (cc)

pub passed_last :
    {E : Type 0} (fails : Bool) (error : E) → raise_if fails error ≡ ok tt → fails ≡ false
passed_last false error h = refl
passed_last true error h = absurd (cc)

pub ok-injective : {E A : Type 0} (a b : A) → ◌≡◌ {A = Result E A} (ok a) (ok b) → a ≡ b
ok-injective a b h = cc
