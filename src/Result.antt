-- ===== src/Result.antt =====
-- A call that returns a value or raises. The classes are those of src/traffik/exceptions.py that the
-- modelled code raises, and the built-in ones.
use traffik.Base.{◌≡◌, Bool, true, false}

pub data Error : Type 0 where
  connection_error value_error index_error key_error runtime_error assertion_error
        invalid_state_error backend_error struct_error :
      Error
  lock_acquisition_error lock_release_error lock_timeout_error lock_pool_error : Error
  parse_error quota_error quota_applied_error quota_cancelled_error : Error

pub data Result {ℓ} (A : Type ℓ) : Type ℓ where
  ok : A → Result A
  err : Error → Result A

infixl 5 ◌>>=◌
abbrev pub ◌>>=◌ {ℓ κ} : {A : Type ℓ} {B : Type κ} → Result A → (A → Result B) → Result B
ok a >>= f = f a
err e >>= f = err e

infixl 5 ◌>>◌
abbrev pub ◌>>◌ {ℓ κ} : {A : Type ℓ} {B : Type κ} → Result A → Result B → Result B
m >> k = m >>= λ _. k

-- `if test: raise e`
abbrev pub raise_if : Bool → Error → Result (Unit {0})
raise_if true e = err e
raise_if false e = ok tt

-- The call returns, and what it returns satisfies `P`.
abbrev pub Returns {ℓ κ} : {A : Type ℓ} → Result A → (A → Type κ) → Type (ℓ ⊔ κ)
Returns {A = A} r P = (a : A) × (r ≡ ok a) × P a
