-- ===== src/Bits/Joined.antt =====
-- Disjunction and exclusive disjunction of words: the cases that the simplifications use, and bounds.
use Prim.Native.Nat.{bit_or, bit_xor, differ, bit_or-bitwise, bit_xor-bitwise}
use native.Mathlib.Nat.{le_refl, pow-suc}
use enoki_jit.Prelude.{ℕ, zero, suc, ◌/◌, ◌%◌, ◌^◌, ◌≤◌, ◌<◌, ◌≡◌, refl, arith}
use enoki_jit.Bits.{bit_or_step, bit_xor_step}

pub zero-bit_or : (y : ℕ) → bit_or 0 y ≡ y
zero-bit_or y = bit_or-bitwise 0 y

pub zero-bit_xor : (y : ℕ) → bit_xor 0 y ≡ y
zero-bit_xor y = bit_xor-bitwise 0 y

differ-zero : (x : ℕ) → differ x 0 ≡ x
differ-zero zero = refl
differ-zero (suc x) = refl

differ_self : (x : ℕ) → x < 2 → differ x x ≡ 0
differ_self zero h = refl
differ_self (suc zero) h = refl
differ_self (suc (suc x)) h = absurd (omega arith)

differ_bit : (x y : ℕ) → x < 2 → y < 2 → differ x y ≤ 1
differ_bit zero zero h k = omega arith
differ_bit zero (suc zero) h k = omega arith
differ_bit (suc zero) zero h k = omega arith
differ_bit (suc zero) (suc zero) h k = omega arith
differ_bit (suc (suc x)) y h k = absurd (omega arith)
differ_bit x (suc (suc y)) h k = absurd (omega arith)

or_below : (n x : ℕ) → x ≤ n → (bit_or x 0 ≡ x) × (bit_or x x ≡ x)
or_below n zero h = (zero-bit_or 0, zero-bit_or 0)
or_below zero (suc x) h = absurd (omega arith)
or_below (suc n) (suc x) h =
    let (a, b) = or_below n (suc x / 2) (omega arith) in
    (omega (arith, bit_or_step (suc x) 0, a), omega (arith, bit_or_step (suc x) (suc x), b))

xor_below : (n x : ℕ) → x ≤ n → (bit_xor x 0 ≡ x) × (bit_xor x x ≡ 0)
xor_below n zero h = (zero-bit_xor 0, zero-bit_xor 0)
xor_below zero (suc x) h = absurd (omega arith)
xor_below (suc n) (suc x) h =
    let (a, b) = xor_below n (suc x / 2) (omega arith) in
    (
      omega (arith, bit_xor_step (suc x) 0, a, differ-zero (suc x % 2)),
      omega (arith, bit_xor_step (suc x) (suc x), b, differ_self (suc x % 2) (omega arith)),
    )

pub bit_or-zero : (x : ℕ) → bit_or x 0 ≡ x
bit_or-zero x = (or_below x x (le_refl x)).0

pub bit_or_self : (x : ℕ) → bit_or x x ≡ x
bit_or_self x = (or_below x x (le_refl x)).1

pub bit_xor-zero : (x : ℕ) → bit_xor x 0 ≡ x
bit_xor-zero x = (xor_below x x (le_refl x)).0

pub bit_xor_self : (x : ℕ) → bit_xor x x ≡ 0
bit_xor_self x = (xor_below x x (le_refl x)).1

-- Words of `k` bits give words of `k` bits.
pub bit_or-lt : (k x y : ℕ) → x < 2 ^ k → y < 2 ^ k → bit_or x y < 2 ^ k
bit_or-lt zero x y h l =
    let (e, f) : (x ≡ 0) × (y ≡ 0) = (omega arith, omega arith) in rw (e, f) (omega arith)
bit_or-lt (suc k) x y h l = omega (
  arith,
  h,
  l,
  pow-suc 2 k,
  bit_or_step x y,
  bit_or-lt k (x / 2) (y / 2) (omega (arith, h, pow-suc 2 k)) (omega (arith, l, pow-suc 2 k)),
)

pub bit_xor-lt : (k x y : ℕ) → x < 2 ^ k → y < 2 ^ k → bit_xor x y < 2 ^ k
bit_xor-lt zero x y h l =
    let (e, f) : (x ≡ 0) × (y ≡ 0) = (omega arith, omega arith) in rw (e, f) (omega arith)
bit_xor-lt (suc k) x y h l = omega (
  arith,
  h,
  l,
  pow-suc 2 k,
  bit_xor_step x y,
  differ_bit (x % 2) (y % 2) (omega arith) (omega arith),
  bit_xor-lt k (x / 2) (y / 2) (omega (arith, h, pow-suc 2 k)) (omega (arith, l, pow-suc 2 k)),
)
