-- ===== src/Codec/Ensures.antt =====
-- What a reader ensures of its value and of the bytes that it leaves, and that it does not fault.
use ruknet.Base.{ℕ, List, Result, ok, err, fault}
use ruknet.Error.{RukBytesError}
use ruknet.Codec.Decode.{Parser}

-- On success the value and the rest meet `P`; an error is allowed, and a fault is not.
pub data Ensures {ℓ} {A : Type ℓ} (P : A → List ℕ → Type 0)
    : Result RukBytesError (A × List ℕ) → Type ℓ where
  returns : {a : A} {r : List ℕ} → P a r → Ensures P (ok (a, r))
  fails : {e : RukBytesError} → Ensures P (err e)

pub Ensures-bind {ℓ κ} :
    {A : Type ℓ} {B : Type κ} {Q : A → List ℕ → Type 0} (P : B → List ℕ → Type 0)
    {x : Result RukBytesError (A × List ℕ)} (f : A → Parser B)
    → Ensures Q x
    → ((a : A) (r : List ℕ) → Q a r → Ensures P (f a r))
    → Ensures P (elim x [ ok (a, r) ↦ f a r | err e ↦ err e | fault ↦ fault ])
Ensures-bind P f (returns q) k = k _ _ q
Ensures-bind P f fails k = fails
