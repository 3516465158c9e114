-- ===== src/Op/Word.antt =====
-- src/op.cpp: the value of an operation on literals. A value is the bit pattern of its type,
-- without leading bits. Two's complement, wrap-around arithmetic and arithmetic right shifts are
-- those of C++; what is undefined there (division by 0, a shift past the width) is a failure.
use enoki_jit.Prelude.{
  ◌||◌, ℕ, zero, suc, ◌+◌, ◌-◌, ◌*◌, ◌/◌, ◌%◌, ◌^◌, Bool, true, false, not, ◌&&◌, ltb, leb, ◌==◌,
  if◌then◌else◌,
}
use enoki_jit.Prelude.Result.{Result, ok, err, fail}
use enoki_jit.Types.{VarType, is_sint, type_size}

-- The number of values of an integer or Boolean type.
abbrev pub modulus : VarType → ℕ
modulus VarType.bool = 2
modulus VarType.int8 = 2 ^ 8
modulus VarType.uint8 = 2 ^ 8
modulus VarType.int16 = 2 ^ 16
modulus VarType.uint16 = 2 ^ 16
modulus VarType.int32 = 2 ^ 32
modulus VarType.uint32 = 2 ^ 32
modulus VarType.int64 = 2 ^ 64
modulus VarType.uint64 = 2 ^ 64
modulus VarType.pointer = 2 ^ 64
modulus VarType.float16 = 2 ^ 16
modulus VarType.float32 = 2 ^ 32
modulus VarType.float64 = 2 ^ 64
modulus VarType.void = 1

abbrev pub one : Bool → ℕ
one true = 1
one false = 0

module _ (t : VarType) where
  abbrev pub m : ℕ
  m = modulus t

  -- The sign bit of a signed type.
  abbrev pub is_negative : ℕ → Bool
  is_negative x = is_sint t && leb (m / 2) x

  -- The absolute value.
  abbrev pub magnitude : ℕ → ℕ
  magnitude x = if is_negative x then m - x else x

  -- The pattern of a number with the given sign and absolute value.
  abbrev pub with_sign : Bool → ℕ → ℕ
  with_sign neg x = if neg then (m - x % m) % m else x % m

  abbrev pub differ_sign : ℕ → ℕ → Bool
  differ_sign x y = if is_negative x then not (is_negative y) else is_negative y

  unfoldable pub eval_add : ℕ → ℕ → ℕ
  eval_add x y = (x + y) % m

  unfoldable pub eval_sub : ℕ → ℕ → ℕ
  eval_sub x y = (x + m - y) % m

  unfoldable pub eval_mul : ℕ → ℕ → ℕ
  eval_mul x y = x * y % m

  unfoldable pub eval_div : ℕ → ℕ → Result ℕ
  eval_div x y =
      if y == 0 then err fail else ok (with_sign (differ_sign x y) (magnitude x / magnitude y))

  unfoldable pub eval_mod : ℕ → ℕ → Result ℕ
  eval_mod x y =
      if y == 0 then err fail else ok (with_sign (is_negative x) (magnitude x % magnitude y))

  -- The high half of the product, for integers of 4 or 8 bytes only; a negative product is rounded
  -- down.
  unfoldable pub eval_mulhi : ℕ → ℕ → Result ℕ
  eval_mulhi x y =
      if type_size t == 4 || type_size t == 8
      then (let p = magnitude x * magnitude y in
          ok (if differ_sign x y then with_sign true ((p + m - 1) / m) else p / m))
      else err fail

  unfoldable pub eval_shl : ℕ → ℕ → Result ℕ
  eval_shl x y = if ltb y (8 * type_size t) then ok (x * 2 ^ y % m) else err fail

  unfoldable pub eval_shr : ℕ → ℕ → Result ℕ
  eval_shr x y =
      if ltb y (8 * type_size t)
      then ok
          (if is_negative x then with_sign true ((magnitude x + 2 ^ y - 1) / 2 ^ y) else x / 2 ^ y)
      else err fail

  unfoldable pub eval_lt : ℕ → ℕ → Bool
  eval_lt x y = if differ_sign x y then is_negative x else ltb x y

  -- `std::min` and `std::max`.
  unfoldable pub eval_min : ℕ → ℕ → ℕ
  unfolding eval_lt
  eval_min x y = if eval_lt y x then y else x

  unfoldable pub eval_max : ℕ → ℕ → ℕ
  unfolding eval_lt
  eval_max x y = if eval_lt x y then y else x

  unfoldable pub eval_neg : ℕ → ℕ
  eval_neg x = (m - x) % m

  unfoldable pub eval_not : ℕ → ℕ
  eval_not x = m - 1 - x

  unfoldable pub eval_abs : ℕ → ℕ
  eval_abs x = magnitude x

-- `while (value) { result += value & 1; value >>= 1; }`, and the other loops over bits.
unfoldable pub popc_loop : ℕ → ℕ → ℕ → ℕ
popc_loop zero value result = result
popc_loop (suc fuel) value result =
    let rest = popc_loop fuel (value / 2) (result + value % 2) in
    if value == 0 then result else rest

unfoldable pub clz_loop : ℕ → ℕ → ℕ → ℕ
clz_loop zero value result = result
clz_loop (suc fuel) value result =
    let rest = clz_loop fuel (value / 2) (result - 1) in if value == 0 then result else rest

unfoldable pub ctz_loop : ℕ → ℕ → ℕ → ℕ → ℕ
ctz_loop zero m value result = result
ctz_loop (suc fuel) m value result =
    let rest = ctz_loop fuel m (value * 2 % m) (result - 1) in if value == 0 then result else rest

unfoldable pub brev_loop : ℕ → ℕ → ℕ → ℕ
brev_loop zero value result = result
brev_loop (suc n) value result = brev_loop n (value / 2) (result * 2 + value % 2)

-- A value of `w` bits takes at most `w` rounds.
unfoldable pub eval_popc : VarType → ℕ → ℕ
unfolding popc_loop
eval_popc t x = popc_loop (8 * type_size t) x 0

unfoldable pub eval_clz : VarType → ℕ → ℕ
unfolding clz_loop
eval_clz t x = clz_loop (8 * type_size t) x (8 * type_size t)

unfoldable pub eval_ctz : VarType → ℕ → ℕ
unfolding ctz_loop
eval_ctz t x = ctz_loop (8 * type_size t) (modulus t) x (8 * type_size t)

unfoldable pub eval_brev : VarType → ℕ → ℕ
unfolding brev_loop
eval_brev t x = brev_loop (8 * type_size t) x 0
