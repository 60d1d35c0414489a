-- ===== src/Base/Errors.antt =====
-- The result of a C function with an error code (fastore/errors.h). The out-parameters are the
-- value of `ok`; `fault` is undefined behaviour, such as an access out of a buffer's bounds.
use mathlib.Core.Path.{◌≡◌, refl}
use mathlib.Core.Bool.{Bool, true, false}

pub data ErrorCode : Type 0 where
  randomness srclen_invalid dstlen_invalid prf_keylen_invalid prp_bitlen_invalid : ErrorCode
  null_pointer memory_allocation params_mismatch params_invalid : ErrorCode
  sk_not_initialized ctxt_not_initialized unsupported_operation : ErrorCode

pub data Outcome {ℓ} (A : Type ℓ) : Type ℓ where
  ok : A → Outcome A
  err : ErrorCode → Outcome A
  fault : Outcome A

-- `ERR_CHECK`: go on after success, and hand an error code back.
infixl 5 ◌>>=◌ ◌>>◌
abbrev pub ◌>>=◌ {ℓ κ} : {A : Type ℓ} {B : Type κ} → Outcome A → (A → Outcome B) → Outcome B
ok a >>= f = f a
err e >>= f = err e
fault >>= f = fault

abbrev pub ◌>>◌ {ℓ} : {B : Type ℓ} → Outcome (Unit {0}) → Outcome B → Outcome B
m >> k = m >>= λ _. k

-- An early return with an error code, unless the condition holds.
abbrev pub guard : Bool → ErrorCode → Outcome (Unit {0})
guard true e = ok tt
guard false e = err e

-- What must hold lest the behaviour is undefined.
abbrev pub require : Bool → Outcome (Unit {0})
require true = ok tt
require false = fault

-- A guard whose condition holds is passed, one whose condition fails returns its code.
pub guard_pass {ℓ} :
    {B : Type ℓ} (b : Bool) (e : ErrorCode) (k : Outcome B) → b ≡ true → (guard b e >> k) ≡ k
guard_pass true e k h = refl
guard_pass false e k h = cc

pub guard_stop {ℓ} :
    {B : Type ℓ} (b : Bool) (e : ErrorCode) (k : Outcome B) → b ≡ false → (guard b e >> k) ≡ err e
guard_stop true e k h = cc
guard_stop false e k h = refl
