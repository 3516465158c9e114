-- ===== src/Op/Plan/Sound.antt =====
-- src/op.cpp: a plan computes what the operation computes on every lane, for the integer types.
use Prim.Native.Nat.{bit_and, bit_or, bit_xor}
use native.Mathlib.Nat.{mod-eq_of_lt}
use enoki_jit.Prelude.{ℕ, ◌%◌, ◌^◌, ◌<◌, true, false, ◌&&◌, ◌≡◌, refl, arith}
use enoki_jit.Prelude.Result.{Result, ok, err, fail, ◌>>=◌}
use enoki_jit.Types.{VarType, type_size, is_float, is_bool, is_int}
use enoki_jit.Types.Kind.{VarKind}
use enoki_jit.Bits.{none_of, bit_and-zero, bit_and_self, bit_and-le}
use enoki_jit.Bits.Joined.{
  zero-bit_or, bit_or-zero, bit_or_self, bit_or-lt, zero-bit_xor, bit_xor-zero, bit_xor_self,
  bit_xor-lt,
}
use enoki_jit.Op.Plan.Bitwise.{plan_and, plan_or, plan_xor}
use enoki_jit.Op.Word
use enoki_jit.Op.Plan.{Operand, Info, Plan, Floats, fold, negative_zero}
use enoki_jit.Op.Plan.Numeric.{plan_add, plan_sub, plan_min, plan_max}
use enoki_jit.Op.Plan.Compare.{plan_eq, plan_neq, plan_lt, plan_le, plan_gt, plan_ge}

-- What the result of a plan holds in one lane, where the operands hold `x` and `y` of type `t`.
-- A literal is cut to the size of its type, as `jitc_var_literal` does.
pub denote : Floats → VarType → Plan → ℕ → ℕ → Result ℕ
denote F t (Plan.constant u r) x y = ok (r % 256 ^ type_size u)
denote F t Plan.first x y = ok x
denote F t Plan.second x y = ok y
denote F t Plan.third x y = err fail
denote F t (Plan.node k u) x y = fold F k t x y
denote F t (Plan.shl_first n) x y = Word.eval_shl t x n
denote F t (Plan.shl_second n) x y = Word.eval_shl t y n
denote F t (Plan.shr_first n) x y = Word.eval_shr t x n
denote F t (Plan.and_first n) x y = ok (bit_and x n)
denote F t Plan.mul_rcp x y = ok (F.binary VarKind.mul t x (F.unary VarKind.rcp t y))

abbrev pub lane : Floats → VarType → Result Plan → ℕ → ℕ → Result ℕ
lane F t plan x y = plan >>= λ p. denote F t p x y

-- The operands have an integer type `t`, and hold `x` and `y` in the lane that is looked at.
pub record Lane (t : VarType) (info : Info) (v0 v1 : Operand) (x y : ℕ) : Type 0 where
  pub int : is_int t ≡ true
  pub type : info.type ≡ t
  pub type0 : v0.type ≡ t
  pub type1 : v1.type ≡ t
  pub literal : info.literal ≡ (v0.lit && v1.lit)
  pub lit0 : v0.lit ≡ true → v0.literal ≡ x
  pub lit1 : v1.lit ≡ true → v1.literal ≡ y
  pub same : v0.index ≡ v1.index → x ≡ y
  pub x_fits : x < Word.modulus t
  pub y_fits : y < Word.modulus t

int-float : (t : VarType) → is_int t ≡ true → is_float t ≡ false
int-float t h = ground arith

int-zero : (t : VarType) → is_int t ≡ true → negative_zero t ≡ 0
int-zero t h = ground arith

int-size : (t : VarType) → is_int t ≡ true → 256 ^ type_size t ≡ Word.modulus t
int-size t h = ground arith

int-pos : (t : VarType) → is_int t ≡ true → 1 < Word.modulus t
int-pos t h = ground arith

int-power : (t : VarType) → is_int t ≡ true → (k : ℕ) × (Word.modulus t ≡ 2 ^ k)
int-power VarType.int8 h = (8, refl)
int-power VarType.uint8 h = (8, refl)
int-power VarType.int16 h = (16, refl)
int-power VarType.uint16 h = (16, refl)
int-power VarType.int32 h = (32, refl)
int-power VarType.uint32 h = (32, refl)
int-power VarType.int64 h = (64, refl)
int-power VarType.uint64 h = (64, refl)
int-power VarType.void h = absurd (ground arith)
int-power VarType.bool h = absurd (ground arith)
int-power VarType.pointer h = (64, ground arith)
int-power VarType.float16 h = absurd (ground arith)
int-power VarType.float32 h = absurd (ground arith)
int-power VarType.float64 h = absurd (ground arith)

int-bool : (t : VarType) → is_int t ≡ true → is_bool t ≡ false
int-bool t h = ground arith

module _ (F : Floats) (t : VarType) (info : Info) (v0 v1 : Operand) (x y : ℕ)
    (l : Lane t info v0 v1 x y) where
  -- `jitc_var_add` and `jitc_var_sub`, on operands of one integer type: every rule that they apply gives in each
  -- lane what the operation computes from the values of the operands there.
  pub sum_plans_sound :
      lane F t (plan_add F info v0 v1) x y ≡ fold F VarKind.add t x y
      × lane F t (plan_sub F info v0 v1) x y ≡ fold F VarKind.sub t x y
  unfolding plan_add plan_sub denote
  sum_plans_sound = ground (
    arith,
    int-float t l.int,
    int-zero t l.int,
    int-size t l.int,
    int-pos t l.int,
    mod-eq_of_lt l.x_fits,
    mod-eq_of_lt l.y_fits,
  )

  -- The six comparisons, on operands of one integer type: every rule that they apply gives in each
  -- lane what the operation computes from the values of the operands there.
  pub compare_plans_sound :
      lane F t (plan_eq F info v0 v1) x y ≡ fold F VarKind.eq t x y
      × lane F t (plan_neq F info v0 v1) x y ≡ fold F VarKind.neq t x y
      × lane F t (plan_lt F info v0 v1) x y ≡ fold F VarKind.lt t x y
      × lane F t (plan_le F info v0 v1) x y ≡ fold F VarKind.le t x y
      × lane F t (plan_gt F info v0 v1) x y ≡ fold F VarKind.gt t x y
      × lane F t (plan_ge F info v0 v1) x y ≡ fold F VarKind.ge t x y
  unfolding plan_eq plan_neq plan_lt plan_le plan_gt plan_ge denote
  compare_plans_sound = ground (
    arith,
    int-float t l.int,
    int-zero t l.int,
    int-size t l.int,
    int-pos t l.int,
    mod-eq_of_lt l.x_fits,
    mod-eq_of_lt l.y_fits,
  )

  -- `jitc_var_min` and `jitc_var_max`, on operands of one integer type: every rule that they apply gives in each
  -- lane what the operation computes from the values of the operands there.
  pub bound_plans_sound :
      lane F t (plan_min F info v0 v1) x y ≡ fold F VarKind.min t x y
      × lane F t (plan_max F info v0 v1) x y ≡ fold F VarKind.max t x y
  unfolding plan_min plan_max denote
  bound_plans_sound = ground (
    arith,
    int-float t l.int,
    int-zero t l.int,
    int-size t l.int,
    int-pos t l.int,
    mod-eq_of_lt l.x_fits,
    mod-eq_of_lt l.y_fits,
  )

  and_fits : bit_and x y % Word.modulus t ≡ bit_and x y
  and_fits = mod-eq_of_lt (omega (arith, bit_and-le x y, l.x_fits))

  -- `jitc_var_and`, on operands of one integer type: every rule that it applies gives in each lane the
  -- bitwise conjunction of the values of the operands there.
  pub and_plan_sound : lane F t (plan_and F info v0 v1) x y ≡ fold F VarKind.and t x y
  unfolding plan_and denote
  and_plan_sound = ground (
    arith,
    int-bool t l.int,
    int-size t l.int,
    none_of y,
    bit_and-zero x,
    bit_and_self x,
    bit_and-le x y,
    and_fits,
    l.same,
    l.lit0,
    l.lit1,
  )

  -- `jitc_var_or` and `jitc_var_xor`, on operands of one integer type: every rule that they apply gives in each
  -- lane the bitwise disjunction or exclusive disjunction of the values of the operands there.
  pub or_xor_plans_sound :
      lane F t (plan_or F info v0 v1) x y ≡ fold F VarKind.or t x y
      × lane F t (plan_xor F info v0 v1) x y ≡ fold F VarKind.xor t x y
  unfolding plan_or plan_xor denote
  or_xor_plans_sound =
      let (k, e) = int-power t l.int in
      let or_fits : bit_or x y % Word.modulus t ≡ bit_or x y =
        mod-eq_of_lt
          (rw e (bit_or-lt k x y (omega (arith, e, l.x_fits)) (omega (arith, e, l.y_fits)))) in
      let xor_fits : bit_xor x y % Word.modulus t ≡ bit_xor x y =
        mod-eq_of_lt
          (rw e (bit_xor-lt k x y (omega (arith, e, l.x_fits)) (omega (arith, e, l.y_fits)))) in
      (
        ground (
          arith,
          int-bool t l.int,
          int-size t l.int,
          zero-bit_or y,
          bit_or-zero x,
          bit_or_self x,
          or_fits,
          l.same,
          l.lit0,
          l.lit1,
        ),
        ground (
          arith,
          int-size t l.int,
          zero-bit_xor y,
          bit_xor-zero x,
          bit_xor_self x,
          xor_fits,
          int-pos t l.int,
          l.same,
          l.lit0,
          l.lit1,
        ),
      )
