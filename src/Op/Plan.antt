-- ===== src/Op/Plan.antt =====
-- src/op.cpp: the chain of simplifications of each operation, as the choice of a plan.
pub mod Numeric
pub mod Compare
pub mod Bitwise
pub mod Sound
use Prim.Native.Nat.{bit_and, bit_or, bit_xor}
use enoki_jit.Prelude.{
  ℕ, ◌+◌, ◌-◌, ◌*◌, ◌/◌, ◌%◌, ◌^◌, Bool, true, false, not, ◌&&◌, ◌||◌, ltb, leb, ◌==◌,
  if◌then◌else◌,
}
use enoki_jit.Prelude.Result.{Result, ok, err, raise, fail, ◌>>=◌}
use enoki_jit.Types.{
  VarType, JitBackend, type_code, type_min, type_max, is_float, is_half, is_bool, is_sint, is_uint,
  is_int,
}
use enoki_jit.Types.Kind.{VarKind, is_literal}
use enoki_jit.Op.Word

-- What the chains read of an operand: its index, whether it is a literal, and its value.
pub record Operand : Type 0 where
  pub index : ℕ
  pub lit : Bool
  pub literal : ℕ
  pub type : VarType

-- `OpInfo`, as far as the chains read it, with the flag `FastMath`.
pub record Info : Type 0 where
  pub backend : JitBackend
  pub type : VarType
  pub simplify : Bool
  pub literal : Bool
  pub fast_math : Bool

-- `jitc_is_zero`, `jitc_is_any_zero`, `jitc_is_one`, `jitc_is_max`, `jitc_is_min`.
abbrev pub is_zero : Operand → Bool
is_zero v = v.lit && (v.literal == 0)

abbrev pub negative_zero : VarType → ℕ
negative_zero VarType.float16 = 0x8000
negative_zero VarType.float32 = 0x8000_0000
negative_zero VarType.float64 = 0x8000_0000_0000_0000
negative_zero _ = 0

abbrev pub is_any_zero : Operand → Bool
is_any_zero v = v.lit && (v.literal == negative_zero v.type || v.literal == 0)

abbrev pub literal_one : VarType → ℕ
literal_one VarType.float16 = 0x3c00
literal_one VarType.float32 = 0x3f80_0000
literal_one VarType.float64 = 0x3ff0_0000_0000_0000
literal_one _ = 1

abbrev pub is_one : Operand → Bool
is_one v = v.lit && (v.literal == literal_one v.type)

abbrev pub is_max : Operand → Bool
is_max v = v.lit && (type_max v.type == v.literal)

abbrev pub is_min : Operand → Bool
is_min v = v.lit && (type_min v.type == v.literal)

-- `jitc_is_pow2`, and `63 - jitc_clz(value)` of a value below 2 ^ 64.
unfoldable pub is_pow2 : ℕ → Bool
is_pow2 value = not (value == 0) && (bit_and value (value - 1) == 0)

unfoldable pub log2_floor : ℕ → ℕ
unfolding Word.clz_loop
log2_floor value = 63 - Word.clz_loop 64 value 64

-- How the result is made.
pub data Plan : Type 0 where
  -- `jitc_eval_literal`, `jitc_make_zero`, …: a literal of this type.
  constant : VarType → ℕ → Plan
  -- `jitc_var_resize` of the first, second or third operand.
  first second third : Plan
  -- A new node over all operands.
  node : VarKind → VarType → Plan
  -- `jitc_var_shift`: the first or second operand, shifted by a literal amount.
  shl_first shl_second shr_first : ℕ → Plan
  -- `jitc_var_and(a0, tmp)` with a literal `tmp`.
  and_first : ℕ → Plan
  -- `jitc_var_mul(a0, jitc_var_rcp(a1))`.
  mul_rcp : Plan

-- The values of operations on literals, for integers by `Word` and for floats by the compiler's
-- arithmetic, which is a parameter.
pub record Floats : Type 0 where
  pub unary : VarKind → VarType → ℕ → ℕ
  pub binary : VarKind → VarType → ℕ → ℕ → ℕ
  pub fma : VarType → ℕ → ℕ → ℕ → ℕ

abbrev pub same : Operand → Operand → Bool
same v0 v1 = v0.index == v1.index

abbrev pub plain : Info → VarKind → Result Plan
plain info k = ok (Plan.node k info.type)

module _ (F : Floats) where
  -- `func(l0, l1)` at the type of the first operand.
  unfoldable pub fold : VarKind → VarType → ℕ → ℕ → Result ℕ
  unfolding Word.eval_add Word.eval_sub Word.eval_mul Word.eval_div Word.eval_mod Word.eval_mulhi
      Word.eval_shl Word.eval_shr Word.eval_min Word.eval_max
  fold VarKind.add t x y =
      if is_float t then ok (F.binary VarKind.add t x y) else ok (Word.eval_add t x y)
  fold VarKind.sub t x y =
      if is_float t then ok (F.binary VarKind.sub t x y) else ok (Word.eval_sub t x y)
  fold VarKind.mul t x y =
      if is_float t then ok (F.binary VarKind.mul t x y) else ok (Word.eval_mul t x y)
  fold VarKind.div t x y =
      if is_float t then ok (F.binary VarKind.div t x y) else Word.eval_div t x y
  fold VarKind.modulo t x y = if is_float t || is_bool t then err fail else Word.eval_mod t x y
  fold VarKind.mulhi t x y = if is_int t then Word.eval_mulhi t x y else err fail
  fold VarKind.min t x y =
      if is_float t then ok (F.binary VarKind.min t x y) else ok (Word.eval_min t x y)
  fold VarKind.max t x y =
      if is_float t then ok (F.binary VarKind.max t x y) else ok (Word.eval_max t x y)
  fold VarKind.eq t x y =
      if is_float t then ok (F.binary VarKind.eq t x y) else ok (Word.one (x == y))
  fold VarKind.neq t x y =
      if is_float t then ok (F.binary VarKind.neq t x y) else ok (Word.one (not (x == y)))
  fold VarKind.lt t x y =
      if is_float t then ok (F.binary VarKind.lt t x y) else ok (Word.one (Word.eval_lt t x y))
  fold VarKind.le t x y =
      if is_float t
      then ok (F.binary VarKind.le t x y)
      else ok (Word.one (not (Word.eval_lt t y x)))
  fold VarKind.gt t x y =
      if is_float t then ok (F.binary VarKind.gt t x y) else ok (Word.one (Word.eval_lt t y x))
  fold VarKind.ge t x y =
      if is_float t
      then ok (F.binary VarKind.ge t x y)
      else ok (Word.one (not (Word.eval_lt t x y)))
  fold VarKind.and t x y = ok (bit_and x y)
  fold VarKind.or t x y = ok (bit_or x y)
  fold VarKind.xor t x y = ok (bit_xor x y)
  fold VarKind.shl t x y = if is_int t then Word.eval_shl t x y else err fail
  fold VarKind.shr t x y = if is_int t then Word.eval_shr t x y else err fail
  fold _ t x y = err fail

  -- `jitc_eval_literal`.
  abbrev pub folded : VarKind → VarType → Operand → Operand → Result Plan
  folded k t v0 v1 = do r ← fold k v0.type v0.literal v1.literal; ok (constant t r)
