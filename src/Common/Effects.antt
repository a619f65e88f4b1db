-- ===== src/Common/Effects.antt =====
-- Python code that mutates an object and may raise: what was written before a raise stays written,
-- so the state comes back beside the exception too.
use Prim.Native.String.{String}
use mathlib.Core.Path.{◌≡◌, refl}
use mathlib.Core.Logic.{◌⊎◌, inl, inr}
use mathlib.Core.Bool.{Bool, true, false}
use mathlib.Core.Option.{Option, none, some}

-- The exceptions that the modelled code raises or lets through.
pub data Error : Type 0 where
  assertion_error key_error value_error index_error attribute_error type_error : Error
  zero_division system_exit decode_error : Error
  raised http_error : String → Error

pub data Result {ℓ} (A : Type ℓ) : Type ℓ where
  ok : A → Result A
  err : Error → Result A

abbrev pub Exec {ℓ κ} : Type ℓ → Type κ → Type (ℓ ⊔ κ)
Exec S A = S → Result A × S

module _ {ℓ κ} {S : Type ℓ} {A : Type κ} where
  abbrev pub pure : A → Exec S A
  pure a s = (ok a, s)

  abbrev pub raise : Error → Exec S A
  raise e s = (err e, s)

  abbrev pub gets : (S → A) → Exec S A
  gets f s = (ok (f s), s)

abbrev pub put_state {ℓ} : {S : Type ℓ} → S → Exec S (Unit {0})
put_state t s = (ok tt, t)

-- `assert(b)`
abbrev pub check {ℓ} : {S : Type ℓ} → Bool → Exec S (Unit {0})
check true s = (ok tt, s)
check false s = (err assertion_error, s)

module _ {ℓ κ μ} {S : Type ℓ} {A : Type κ} {B : Type μ} where
  abbrev pub after_result : Result A → (A → Exec S B) → Exec S B
  after_result (ok a) f s = f a s
  after_result (err e) f s = (err e, s)

  infixl 5 ◌>>=◌ ◌>>◌
  abbrev pub ◌>>=◌ : Exec S A → (A → Exec S B) → Exec S B
  ◌>>=◌ m f s = let (r, t) = m s in after_result r f t

  abbrev pub ◌>>◌ : Exec S A → Exec S B → Exec S B
  m >> n = m >>= λ _. n

abbrev pub is_ok {ℓ} : {A : Type ℓ} → Result A → Bool
is_ok (ok a) = true
is_ok (err e) = false

-- A split on a computed result that keeps the equation.
pub Result-cases {ℓ} :
    {A : Type ℓ} (r : Result A) → ((a : A) × (r ≡ ok a)) ⊎ ((e : Error) × (r ≡ err e))
Result-cases (ok a) = inl (a, refl)
Result-cases (err e) = inr (e, refl)

-- A loop that has run out of fuel has no result: here an error that no code raises.
abbrev pub finished {ℓ κ} : {S : Type ℓ} {A : Type κ} → Option A → Exec S A
finished none = raise (raised "out of fuel")
finished (some a) = pure a
