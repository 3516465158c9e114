-- ===== src/Op/Plan/Numeric.antt =====
-- src/op.cpp: the chains of simplifications of arithmetic.
use enoki_jit.Prelude.{◌-◌, not, ◌&&◌, ◌||◌, if◌then◌else◌}
use enoki_jit.Prelude.Result.{Result, ok}
use enoki_jit.Types.{VarType, JitBackend, is_float, is_half, is_uint, is_int}
use enoki_jit.Types.Kind.{VarKind}
use enoki_jit.Op.Plan.{
  Operand, Info, Plan, Floats, is_zero, is_any_zero, is_one, is_max, is_min, is_pow2, log2_floor,
  same, plain, fold, folded,
}

module _ (F : Floats) (info : Info) (v0 v1 : Operand) where
  unfoldable pub plan_add : Result Plan
  unfolding fold
  plan_add =
      if info.simplify
      then (if info.literal
          then folded F VarKind.add info.type v0 v1
          else if is_any_zero v0
          then ok Plan.second
          else if is_any_zero v1
          then ok Plan.first
          else plain info VarKind.add)
      else plain info VarKind.add

  unfoldable pub plan_sub : Result Plan
  unfolding fold
  plan_sub =
      if info.simplify
      then (if info.literal
          then folded F VarKind.sub info.type v0 v1
          else if is_any_zero v1
          then ok Plan.first
          else if same v0 v1 && not (is_float v0.type)
          then ok (Plan.constant info.type 0)
          else plain info VarKind.sub)
      else plain info VarKind.sub

  unfoldable pub plan_mul : Result Plan
  unfolding fold is_pow2 log2_floor
  plan_mul =
      if info.simplify
      then (if info.literal
          then folded F VarKind.mul info.type v0 v1
          else if is_one v0 || (is_any_zero v1 && (is_int v0.type || info.fast_math))
          then ok Plan.second
          else if is_one v1 || (is_any_zero v0 && (is_int v0.type || info.fast_math))
          then ok Plan.first
          else if is_uint info.type && (v0.lit && is_pow2 v0.literal)
          then ok (Plan.shl_second (log2_floor v0.literal))
          else if is_uint info.type && (v1.lit && is_pow2 v1.literal)
          then ok (Plan.shl_first (log2_floor v1.literal))
          else plain info VarKind.mul)
      else plain info VarKind.mul

  -- The approximate division of the CUDA backend is a Plan.node of its own.
  abbrev pub div_kind : VarKind
  div_kind = elim info.backend [
    | JitBackend.cuda ↦ (elim info.type [ VarType.float32 ↦ VarKind.div_approx | _ ↦ VarKind.div ])
    | _ ↦ VarKind.div
  ]

  unfoldable pub plan_div : Result Plan
  unfolding fold is_pow2 log2_floor
  plan_div =
      if info.simplify
      then (if info.literal
          then folded F VarKind.div info.type v0 v1
          else if is_one v1
          then ok Plan.first
          else if is_uint info.type && (v1.lit && is_pow2 v1.literal)
          then ok (Plan.shr_first (log2_floor v1.literal))
          else if is_float info.type && (not (is_half info.type) && v1.lit)
          then ok Plan.mul_rcp
          else if same v0 v1 && not (is_float v0.type)
          then ok (Plan.constant info.type 1)
          else plain info div_kind)
      else plain info div_kind

  -- The last two rules do not ask whether simplifications are on.
  unfoldable pub plan_mod : Result Plan
  unfolding fold is_pow2
  plan_mod =
      if info.simplify && info.literal
      then folded F VarKind.modulo info.type v0 v1
      else if is_uint info.type && (v1.lit && is_pow2 v1.literal)
      then ok (Plan.and_first (v1.literal - 1))
      else if v1.lit && is_one v1
      then ok (Plan.constant info.type 0)
      else plain info VarKind.modulo

  unfoldable pub plan_mulhi : Result Plan
  unfolding fold
  plan_mulhi =
      if info.simplify
      then (if info.literal
          then folded F VarKind.mulhi info.type v0 v1
          else if is_zero v0
          then ok Plan.first
          else if is_zero v1
          then ok Plan.second
          else plain info VarKind.mulhi)
      else plain info VarKind.mulhi

  unfoldable pub plan_min : Result Plan
  unfolding fold
  plan_min =
      if info.simplify
      then (if info.literal
          then folded F VarKind.min info.type v0 v1
          else if is_max v0 || is_min v1
          then ok Plan.second
          else if is_max v1 || is_min v0
          then ok Plan.first
          else if same v0 v1
          then ok Plan.first
          else plain info VarKind.min)
      else plain info VarKind.min

  unfoldable pub plan_max : Result Plan
  unfolding fold
  plan_max =
      if info.simplify
      then (if info.literal
          then folded F VarKind.max info.type v0 v1
          else if is_min v0 || is_max v1
          then ok Plan.second
          else if is_min v1 || is_max v0
          then ok Plan.first
          else if same v0 v1
          then ok Plan.first
          else plain info VarKind.max)
      else plain info VarKind.max
