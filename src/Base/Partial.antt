-- ===== src/Base/Partial.antt =====
-- The outcome of code that dereferences pointers: a result, or undefined behaviour (a NULL
-- dereference).
use mathlib.Core.Path.{◌≡◌, refl}

pub data Outcome {ℓ} (V : Type ℓ) : Type ℓ where
  fault : Outcome V
  ok : V → Outcome V

infixl 5 ◌>>=◌
abbrev pub ◌>>=◌ {ℓ μ} : {V : Type ℓ} {W : Type μ} → Outcome V → (V → Outcome W) → Outcome W
fault >>= next = fault
ok value >>= next = next value

pub >>=-eq-ok {ℓ μ} :
    {V : Type ℓ} {W : Type μ} (m : Outcome V) (next : V → Outcome W) {w : W}
    → (m >>= next) ≡ ok w
    → (v : V) × (m ≡ ok v) × (next v ≡ ok w)
>>=-eq-ok (ok value) next h = (value, refl, h)
>>=-eq-ok fault next h = cc
