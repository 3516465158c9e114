-- ===== src/Bits.antt =====
-- Bit operations at variables: fields that stand above a boundary.
pub mod Joined
use Prim.Native.Nat.{
  bit_and, bit_or, bit_xor, digits, bitwise, differ, bit_and-bitwise, bit_or-bitwise,
  bit_xor-bitwise,
}
use native.Mathlib.Nat.{le_refl, pow-suc, pow-succ', div-div-eq-div-mul}
use enoki_jit.Prelude.{
  ℕ, zero, suc, ◌+◌, ◌*◌, ◌/◌, ◌%◌, ◌^◌, ◌≤◌, ◌<◌, min, max, ◌≡◌, refl, ◌∙◌, arith,
}

-- The fuel of a digit recursion does not matter.
fuel_irrelevant :
    (z : ℕ → ℕ) (f : ℕ → ℕ → ℕ) (n m a b : ℕ) → a ≤ n → a ≤ m → digits z f n a b ≡ digits z f m a b
fuel_irrelevant z f zero zero a b p q = refl
fuel_irrelevant z f zero (suc m) zero b p q = refl
fuel_irrelevant z f zero (suc m) (suc a) b p q = absurd (omega arith)
fuel_irrelevant z f (suc n) zero zero b p q = refl
fuel_irrelevant z f (suc n) zero (suc a) b p q = absurd (omega arith)
fuel_irrelevant z f (suc n) (suc m) zero b p q = refl
fuel_irrelevant z f (suc n) (suc m) (suc a) b p q =
    rw (fuel_irrelevant z f n m (suc a / 2) (b / 2) (omega arith) (omega arith))

bitwise-suc :
    (z : ℕ → ℕ) (f : ℕ → ℕ → ℕ) (a b : ℕ)
    → bitwise z f (suc a) b ≡ bitwise z f (suc a / 2) (b / 2) * 2 + f (suc a % 2) (b % 2)
bitwise-suc z f a b =
    omega (arith, fuel_irrelevant z f a (suc a / 2) (suc a / 2) (b / 2) (omega arith) (le_refl _))

zero-bit_xor : (b : ℕ) → bit_xor 0 b ≡ b
zero-bit_xor b = bit_xor-bitwise 0 b

pub none_of : (mask : ℕ) → bit_and 0 mask ≡ 0
none_of mask = bit_and-bitwise 0 mask

pub bit_xor_step : (a b : ℕ) → bit_xor a b ≡ bit_xor (a / 2) (b / 2) * 2 + differ (a % 2) (b % 2)
bit_xor_step zero b = omega (arith, zero-bit_xor b, zero-bit_xor (b / 2))
bit_xor_step (suc a) b = simp bit_xor-bitwise (bitwise-suc (λ y. y) differ a b)

pub bit_and_step : (x y : ℕ) → bit_and x y ≡ 2 * bit_and (x / 2) (y / 2) + min (x % 2) (y % 2)
bit_and_step zero y = omega (arith, none_of y, none_of (y / 2))
bit_and_step (suc x) y = omega (
  arith,
  bit_and-bitwise (suc x) y,
  bit_and-bitwise (suc x / 2) (y / 2),
  bitwise-suc (λ v. 0) min x y,
)

pub bit_or_step : (x y : ℕ) → bit_or x y ≡ 2 * bit_or (x / 2) (y / 2) + max (x % 2) (y % 2)
bit_or_step zero y = omega (arith, bit_or-bitwise 0 y, bit_or-bitwise 0 (y / 2))
bit_or_step (suc x) y = omega (
  arith,
  bit_or-bitwise (suc x) y,
  bit_or-bitwise (suc x / 2) (y / 2),
  bitwise-suc (λ v. v) max x y,
)

double_pow : (n k : ℕ) → n * 2 ^ suc k ≡ 2 * (n * 2 ^ k)
double_pow n k = rw pow-suc (omega arith)

pub div-pow : (x k : ℕ) → x / 2 ^ suc k ≡ x / 2 / 2 ^ k
div-pow x k = rw (pow-succ', div-div-eq-div-mul)

and-zero_below : (n a : ℕ) → a ≤ n → bit_and a 0 ≡ 0
and-zero_below n zero h = refl
and-zero_below zero (suc a) h = absurd (omega arith)
and-zero_below (suc n) (suc a) h =
    omega (arith, bit_and_step (suc a) 0, and-zero_below n (suc a / 2) (omega arith))

pub bit_and-zero : (a : ℕ) → bit_and a 0 ≡ 0
bit_and-zero a = and-zero_below a a (le_refl a)

differ-zero : (x : ℕ) → differ x 0 ≡ x
differ-zero zero = refl
differ-zero (suc x) = refl

double_div : (y : ℕ) → 2 * y / 2 ≡ y
double_div y = omega arith

double_mod : (y : ℕ) → 2 * y % 2 ≡ 0
double_mod y = omega arith

bit_xor_double : (d y : ℕ) → bit_xor (d / 2) y ≡ d / 2 + y → bit_xor d (2 * y) ≡ d + 2 * y
bit_xor_double d y h =
    rw (bit_xor_step d (2 * y), double_div y, double_mod y, differ-zero (d % 2), h) (omega arith)

-- Exclusive or with a field above bit `k` adds that field to a value below `2 ^ k`.
pub bit_xor_high : (k n d : ℕ) → d < 2 ^ k → bit_xor d (n * 2 ^ k) ≡ d + n * 2 ^ k
bit_xor_high zero n d h = let e : d ≡ 0 = omega arith in rw e (zero-bit_xor _ ∙ omega arith)
bit_xor_high (suc k) n d h =
    rw double_pow
      (bit_xor_double d (n * 2 ^ k) (bit_xor_high k n (d / 2) (omega (arith, double_pow 1 k))))

bit_and_double : (x y z : ℕ) → bit_and (x / 2) y ≡ z → bit_and x (2 * y) ≡ 2 * z
bit_and_double x y z h = rw (bit_and_step x (2 * y), double_div y, double_mod y, h) (omega arith)

and_whole : (x m m' x' : ℕ) → m' ≡ m → x' ≡ x → bit_and x m' ≡ bit_and x' m * 1
and_whole x m m' x' e f = rw (e, f) (omega arith)

-- A mask of a field above bit `k` selects that field.
pub bit_and_high : (k m x : ℕ) → bit_and x (m * 2 ^ k) ≡ bit_and (x / 2 ^ k) m * 2 ^ k
bit_and_high zero m x = and_whole x m (m * 1) (x / 1) (omega arith) (omega arith)
bit_and_high (suc k) m x =
    rw (double_pow m k, double_pow (bit_and (x / 2 ^ suc k) m) k, div-pow x k)
      (bit_and_double x (m * 2 ^ k) _ (bit_and_high k m (x / 2)))

-- The low four bits.
pub bit_and_fifteen : (x : ℕ) → bit_and x 15 ≡ x % 16
bit_and_fifteen x = omega (
  arith,
  bit_and_step x 15,
  bit_and_step (x / 2) 7,
  bit_and_step (x / 2 / 2) 3,
  bit_and_step (x / 2 / 2 / 2) 1,
  bit_and-zero (x / 2 / 2 / 2 / 2),
)

self_below : (n x : ℕ) → x ≤ n → bit_and x x ≡ x
self_below n zero h = refl
self_below zero (suc x) h = absurd (omega arith)
self_below (suc n) (suc x) h =
    omega (arith, bit_and_step (suc x) (suc x), self_below n (suc x / 2) (omega arith))

pub bit_and_self : (x : ℕ) → bit_and x x ≡ x
bit_and_self x = self_below x x (le_refl x)

le_below : (n x y : ℕ) → x ≤ n → bit_and x y ≤ x
le_below n zero y h = omega (arith, none_of y)
le_below zero (suc x) y h = absurd (omega arith)
le_below (suc n) (suc x) y h =
    omega (arith, bit_and_step (suc x) y, le_below n (suc x / 2) (y / 2) (omega arith))

pub bit_and-le : (x y : ℕ) → bit_and x y ≤ x
bit_and-le x y = le_below x x y (le_refl x)
