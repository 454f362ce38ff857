-- ===== src/Common/Ensures.antt =====
-- What holds of the value of a call, if it returns.
use mathlib.Core.Path.{◌≡◌, refl, subst}
use mathlib.Core.Bool.{Bool, true, false}
use risk_sentinel.Common.Lists.{Bytes}
use risk_sentinel.Common.Results.{Outcome, ok, err, ◌>>=◌, ◌>>◌, throw_if, ok-injective}

pub record Ensures {ℓ} {A : Type ℓ} (P : A → Type 0) (m : Outcome A) : Type ℓ where
  pub at : (a : A) → m ≡ ok a → P a

pub Ensures-ok {ℓ} : {A : Type ℓ} {P : A → Type 0} (a : A) → P a → Ensures P (ok a)
Ensures-ok {P} a p = record { at = λ b e. subst P (ok-injective a b e) p }

pub Ensures-err {ℓ} : {A : Type ℓ} {P : A → Type 0} (e : Bytes) → Ensures P (err e)
Ensures-err e = record { at = λ b h. absurd (cc h) }

pub Ensures-bind {ℓ κ} :
    {A : Type ℓ} {B : Type κ} {P : B → Type 0} (m : Outcome A) (f : A → Outcome B)
    → ((a : A) → m ≡ ok a → Ensures P (f a))
    → Ensures P (m >>= f)
Ensures-bind (ok a) f h = h a refl
Ensures-bind (err e) f h = Ensures-err e

pub Ensures-throw_if {ℓ} :
    {B : Type ℓ} {P : B → Type 0} (t : Bool) (e : Bytes) (k : Outcome B)
    → (t ≡ false → Ensures P k)
    → Ensures P (throw_if t e >> k)
Ensures-throw_if true e k h = Ensures-err e
Ensures-throw_if false e k h = h refl
