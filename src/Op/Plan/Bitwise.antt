-- ===== src/Op/Plan/Bitwise.antt =====
-- src/op.cpp: the chains of simplifications of bits and shifts.
use enoki_jit.Prelude.{Bool, not, ◌&&◌, ◌||◌, ◌==◌, if◌then◌else◌}
use enoki_jit.Prelude.Result.{Result, ok, err, raise}
use enoki_jit.Types.{type_code, is_bool}
use enoki_jit.Types.Kind.{VarKind}
use enoki_jit.Op.Plan.{Operand, Info, Plan, Floats, is_zero, is_one, same, plain, fold, folded}

module _ (F : Floats) (info : Info) (v0 v1 : Operand) where
  abbrev pub same_type : Bool
  same_type = type_code v0.type == type_code v1.type

  unfoldable pub plan_and : Result Plan
  unfolding fold
  plan_and =
      if not same_type && not (is_bool v1.type)
      then err raise
      else if info.simplify
      then (if info.literal && same_type
          then folded F VarKind.and info.type v0 v1
          else if is_zero v0 || is_zero v1
          then ok (Plan.constant info.type 0)
          else if (is_one v1 && is_bool v1.type) || same v0 v1
          then ok Plan.first
          else if is_one v0 && is_bool v0.type
          then ok Plan.second
          else plain info VarKind.and)
      else plain info VarKind.and

  unfoldable pub plan_or : Result Plan
  unfolding fold
  plan_or =
      if not same_type && not (is_bool v1.type)
      then err raise
      else if info.simplify
      then (if info.literal && same_type
          then folded F VarKind.or info.type v0 v1
          else if (is_bool v0.type && is_one v1) || ((is_zero v0 && same_type) || same v0 v1)
          then ok Plan.second
          else if (is_bool v0.type && is_one v0) || is_zero v1
          then ok Plan.first
          else plain info VarKind.or)
      else plain info VarKind.or

  unfoldable pub plan_xor : Result Plan
  unfolding fold
  plan_xor =
      if info.simplify
      then (if info.literal
          then folded F VarKind.xor info.type v0 v1
          else if is_zero v1
          then ok Plan.first
          else if is_zero v0
          then ok Plan.second
          else if same v0 v1
          then ok (Plan.constant info.type 0)
          else plain info VarKind.xor)
      else plain info VarKind.xor

  unfoldable pub plan_shl : Result Plan
  unfolding fold
  plan_shl =
      if info.simplify
      then (if info.literal
          then folded F VarKind.shl info.type v0 v1
          else if is_zero v0 || is_zero v1
          then ok Plan.first
          else plain info VarKind.shl)
      else plain info VarKind.shl

  unfoldable pub plan_shr : Result Plan
  unfolding fold
  plan_shr =
      if info.simplify
      then (if info.literal
          then folded F VarKind.shr info.type v0 v1
          else if is_zero v0 || is_zero v1
          then ok Plan.first
          else plain info VarKind.shr)
      else plain info VarKind.shr
