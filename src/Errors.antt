-- ===== src/Errors.antt =====
-- Exceptions as values. Code: mcp_governance_gateway/errors.py; `ValueError`, `PermissionError`,
-- `AuthError`, `KeyStoreError`, `KeyError`, `TypeError`, `AttributeError` and `OverflowError` are the other classes
-- that the modelled code raises.
use mcp_governance_gateway.Base.{refl, ℕ, String, ◌≡◌, Bool, true, false, Option}

pub data Error : Type 0 where
  value_error permission_error auth_error : String → Error
  backend_error : String → Option ℕ → Error
  key_store_error : String → Error
  key_error type_error attribute_error overflow_error : Error

pub data Result {ℓ} (A : Type ℓ) : Type ℓ where
  err : (raised : Error) → Result A
  ok : (returned : A) → Result A

-- A raised error goes on past what follows.
infixl 5 ◌>>=◌
abbrev pub ◌>>=◌ {ℓ κ} : {A : Type ℓ} {B : Type κ} → Result A → (A → Result B) → Result B
err raised >>= _ = err raised
ok value >>= next = next value

abbrev pub is_ok {ℓ} : {A : Type ℓ} → Result A → Bool
is_ok (ok a) = true
is_ok (err e) = false

pub ok_inj {ℓ} : {A : Type ℓ} (a b : A) → ◌≡◌ {A = Result A} (ok a) (ok b) → a ≡ b
ok_inj a b h = cc

-- What comes behind a step returned, so the step did.
pub bind-ok {ℓ κ} :
    {A : Type ℓ} {B : Type κ} (r : Result A) (f : A → Result B) (b : B)
    → ◌≡◌ {A = Result B} (r >>= f) (ok b)
    → (a : A) × (r ≡ ok a) × (f a ≡ ok b)
bind-ok (ok a) f b h = (a, refl, h)
bind-ok (err e) f b h = absurd (let no : err e ≡ ok b = h in cc)
