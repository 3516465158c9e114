-- ===== src/Op/Plan/Compare.antt =====
-- src/op.cpp: the chains of simplifications of comparison.
use enoki_jit.Prelude.{not, ◌&&◌, if◌then◌else◌}
use enoki_jit.Prelude.Result.{Result, ok}
use enoki_jit.Types.{VarType, is_float}
use enoki_jit.Types.Kind.{VarKind}
use enoki_jit.Op.Plan.{Operand, Info, Plan, Floats, same, fold, folded}

module _ (F : Floats) (info : Info) (v0 v1 : Operand) where
  unfoldable pub plan_eq : Result Plan
  unfolding fold
  plan_eq =
      if info.simplify
      then (if info.literal
          then folded F VarKind.eq VarType.bool v0 v1
          else if same v0 v1 && not (is_float v0.type)
          then ok (Plan.constant VarType.bool 1)
          else ok (Plan.node VarKind.eq VarType.bool))
      else ok (Plan.node VarKind.eq VarType.bool)

  unfoldable pub plan_neq : Result Plan
  unfolding fold
  plan_neq =
      if info.simplify
      then (if info.literal
          then folded F VarKind.neq VarType.bool v0 v1
          else if same v0 v1
          then ok (Plan.constant VarType.bool 0)
          else ok (Plan.node VarKind.neq VarType.bool))
      else ok (Plan.node VarKind.neq VarType.bool)

  unfoldable pub plan_lt : Result Plan
  unfolding fold
  plan_lt =
      if info.simplify
      then (if info.literal
          then folded F VarKind.lt VarType.bool v0 v1
          else if same v0 v1
          then ok (Plan.constant VarType.bool 0)
          else ok (Plan.node VarKind.lt VarType.bool))
      else ok (Plan.node VarKind.lt VarType.bool)

  unfoldable pub plan_le : Result Plan
  unfolding fold
  plan_le =
      if info.simplify
      then (if info.literal
          then folded F VarKind.le VarType.bool v0 v1
          else if same v0 v1 && not (is_float v0.type)
          then ok (Plan.constant VarType.bool 1)
          else ok (Plan.node VarKind.le VarType.bool))
      else ok (Plan.node VarKind.le VarType.bool)

  unfoldable pub plan_gt : Result Plan
  unfolding fold
  plan_gt =
      if info.simplify
      then (if info.literal
          then folded F VarKind.gt VarType.bool v0 v1
          else if same v0 v1
          then ok (Plan.constant VarType.bool 0)
          else ok (Plan.node VarKind.gt VarType.bool))
      else ok (Plan.node VarKind.gt VarType.bool)

  unfoldable pub plan_ge : Result Plan
  unfolding fold
  plan_ge =
      if info.simplify
      then (if info.literal
          then folded F VarKind.ge VarType.bool v0 v1
          else if same v0 v1 && not (is_float v0.type)
          then ok (Plan.constant VarType.bool 1)
          else ok (Plan.node VarKind.ge VarType.bool))
      else ok (Plan.node VarKind.ge VarType.bool)
