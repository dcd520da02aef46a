-- ===== src/Base/Results.antt =====
use mathlib.Core.Path.{◌≡◌}

-- What a call comes to: a value, an error value, or a panic of the process.

pub data Outcome {ℓ κ} (E : Type ℓ) (A : Type κ) : Type (ℓ ⊔ κ) where
  ok : A → Outcome E A
  err : E → Outcome E A
  panic : Outcome E A

infixl 5 ◌>>=◌
abbrev pub ◌>>=◌ {ℓ κ μ} :
    {E : Type ℓ} {A : Type κ} {B : Type μ} → Outcome E A → (A → Outcome E B) → Outcome E B
panic >>= next = panic
err e >>= next = err e
ok a >>= next = next a

-- Behind a chain that came to a value stands a value of its first step.
pub >>=-ok {ℓ κ μ} :
    {E : Type ℓ} {A : Type κ} {B : Type μ} (first : Outcome E A) (next : A → Outcome E B) (b : B)
    → (first >>= next) ≡ ok b
    → (a : A) × (next a ≡ ok b)
>>=-ok panic next b e = cc
>>=-ok (err x) next b e = cc
>>=-ok (ok a) next b e = (a, e)
