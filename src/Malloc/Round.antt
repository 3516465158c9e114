-- ===== src/Malloc/Round.antt =====
-- src/malloc.cpp: `round_pow2` for `size_t` and for `uint32_t`, which smears the highest digit of
-- `x - 1` over all lower ones. Both wrap, at `x - 1` and at `x + 1`.
pub mod Least
pub mod Block
use Prim.Native.Nat.{bit_or}
use enoki_jit.Prelude.{ℕ, ◌+◌, ◌-◌, ◌/◌, ◌%◌, ◌^◌}

-- `x |= x >> by`
unfoldable pub smear : ℕ → ℕ → ℕ
smear by x = bit_or x (x / 2 ^ by)

unfoldable pub smear_32 : ℕ → ℕ
smear_32 x = smear 16 (smear 8 (smear 4 (smear 2 (smear 1 x))))

unfoldable pub smear_64 : ℕ → ℕ
unfolding smear_32
smear_64 x = smear 32 (smear_32 x)

unfoldable pub round_pow2 : ℕ → ℕ
unfolding smear_64
round_pow2 x = (smear_64 ((x + (2 ^ 64 - 1)) % 2 ^ 64) + 1) % 2 ^ 64

unfoldable pub round_pow2_32 : ℕ → ℕ
unfolding smear_32
round_pow2_32 x = (smear_32 ((x + (2 ^ 32 - 1)) % 2 ^ 32) + 1) % 2 ^ 32
