-- ===== src/Prelude/Result.antt =====
-- Results of code that can raise (`jitc_raise`, an exception) or fail (`jitc_fail`, an abort).

use mathlib.Core.Path.{◌≡◌, refl}

pub data Error : Type 0 where
  raise : Error
  fail : Error

-- What the code returns, or the way in which it stopped.
pub data Result {ℓ} (A : Type ℓ) : Type ℓ where
  err : Error → Result A
  ok : A → Result A

infixl 5 ◌>>=◌
abbrev pub ◌>>=◌ {ℓ κ} : {A : Type ℓ} {B : Type κ} → Result A → (A → Result B) → Result B
err why >>= next = err why
ok value >>= next = next value

-- A chain that returns has returned at each step.
pub bind_ok {ℓ κ} :
    {A : Type ℓ} {B : Type κ} (r : Result A) (rest : A → Result B) (b : B)
    → (r >>= rest) ≡ ok b
    → (a : A) × (r ≡ ok a) × (rest a ≡ ok b)
bind_ok (err why) rest b h = absurd cc
bind_ok (ok a) rest b h = (a, refl, h)

pub ok-injective {ℓ} : {A : Type ℓ} (a b : A) → ok a ≡ ok b → a ≡ b
ok-injective a b h = cc
