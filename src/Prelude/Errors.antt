-- ===== src/Prelude/Errors.antt =====
-- Python exceptions as values.
use mathlib.Core.Path.{◌≡◌, refl, subst}
use mathlib.Core.Logic.{◌⊎◌, inl, inr}
use mathlib.Core.Bool.{Bool, true, false}
use py_kvcache.Prelude.Tests.{if◌then◌else◌}

pub data Error : Type 0 where
  value_error type_error runtime_error key_error zero_division_error : Error

pub data Result {ℓ} (Value : Type ℓ) : Type ℓ where
  ok : Value → Result Value
  err : Error → Result Value

-- What follows a call, unless the call raised.
infixl 5 ◌>>=◌ ◌>>◌
abbrev pub ◌>>=◌ {ℓ κ} : {A : Type ℓ} {B : Type κ} → Result A → (A → Result B) → Result B
err raised >>= rest = err raised
ok value >>= rest = rest value

abbrev pub ◌>>◌ {ℓ} : {B : Type ℓ} → Result (Unit {0}) → Result B → Result B
first >> rest = first >>= λ _. rest

-- `if test: raise e`
abbrev pub raise_if : Bool → Error → Result (Unit {0})
raise_if true e = err e
raise_if false e = ok tt

-- A call that is followed by others returned, if these did.
pub bind_inv {ℓ κ} :
    {A : Type ℓ} {B : Type κ} (m : Result A) {f : A → Result B} {b : B}
    → (m >>= f) ≡ ok b
    → (a : A) × (m ≡ ok a) × (f a ≡ ok b)
bind_inv (ok a) e = (a, refl, e)
bind_inv (err raised) e = cc

pub raise_if_inv {ℓ} :
    {B : Type ℓ} (test : Bool) (raised : Error) {m : Result B} {b : B}
    → (raise_if test raised >> m) ≡ ok b
    → (test ≡ false) × (m ≡ ok b)
raise_if_inv true _ e = cc
raise_if_inv false _ e = (refl, e)

-- What holds of one returned value holds of it under another name.
pub ok_inv {ℓ κ} : {A : Type ℓ} (P : A → Type κ) {a b : A} → ok a ≡ ok b → P a → P b
ok_inv P {a} {b} e p = let same : a ≡ b = cc in subst P same p

pub else_inv {ℓ} :
    {B : Type ℓ} (test : Bool) (raised : Error) {m : Result B} {b : B}
    → (if test then err raised else m) ≡ ok b
    → m ≡ ok b
else_inv true _ e = cc
else_inv false _ e = e

pub Result-cases {ℓ} :
    {A : Type ℓ} (r : Result A) → ((a : A) × (r ≡ ok a)) ⊎ ((e : Error) × (r ≡ err e))
Result-cases (ok a) = inl (a, refl)
Result-cases (err e) = inr (e, refl)
