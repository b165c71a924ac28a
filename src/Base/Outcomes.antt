-- ===== src/Base/Outcomes.antt =====
-- What a Python call ends with: a value, or the exception that it raises.
use mathlib.Core.Path.{◌≡◌, refl}
use mathlib.Core.Logic.{◌⊎◌, inl, inr}

pub data Exception : Type 0 where
  zero_division : Exception
  index_error : Exception
  type_error : Exception
  unbound_local_error : Exception
  key_error : Exception
  struct_error : Exception
  value_error : Exception
  attribute_error : Exception
  connection_error : Exception
  timeout_error : Exception
  runtime_error : Exception

pub data Outcome {ℓ} (A : Type ℓ) : Type ℓ where
  ok : A → Outcome A
  raise : Exception → Outcome A

module _ {ℓ κ} {A : Type ℓ} {B : Type κ} where
  infixl 5 ◌>>=◌
  abbrev pub ◌>>=◌ : Outcome A → (A → Outcome B) → Outcome B
  raise x >>= k = raise x
  ok v >>= k = k v

  -- A chain that returns has returned at its first step.
  pub bind_ok :
      (first : Outcome A) (k : A → Outcome B) {w : B}
      → (first >>= k) ≡ ok w
      → (v : A) × (first ≡ ok v) × (k v ≡ ok w)
  bind_ok (raise x) k e = cc
  bind_ok (ok v) k e = (v, refl, e)

-- To split on how a call ended, and keep the equation.
pub Outcome-cases {ℓ} :
    {A : Type ℓ} (o : Outcome A) → ((v : A) × (o ≡ ok v)) ⊎ ((x : Exception) × (o ≡ raise x))
Outcome-cases (ok v) = inl (v, refl)
Outcome-cases (raise x) = inr (x, refl)

pub ok_injective {ℓ} : {A : Type ℓ} {v w : A} → ok v ≡ ok w → v ≡ w
ok_injective e = cc

pub raise_injective {ℓ} :
    {A : Type ℓ} {x y : Exception} → ◌≡◌ {A = Outcome A} (raise x) (raise y) → x ≡ y
raise_injective e = cc
