-- ===== src/Tests/Plans.antt =====
-- src/op.cpp: unsigned operands of which the second is the literal 0.
use enoki_jit.Prelude.{◌≡◌, refl, true, false, arith}
use enoki_jit.Types.{VarType, JitBackend}
use enoki_jit.Types.Kind.{VarKind}
use enoki_jit.Op.Plan.{Operand, Info, Floats, fold}
use enoki_jit.Op.Plan.Numeric.{plan_add, plan_sub, plan_min, plan_max}
use enoki_jit.Op.Plan.Bitwise.{plan_and, plan_or, plan_xor}
use enoki_jit.Op.Plan.Compare.{plan_eq, plan_neq, plan_lt, plan_le, plan_gt, plan_ge}
use enoki_jit.Op.Plan.Sound.{
  Lane, lane, sum_plans_sound, compare_plans_sound, bound_plans_sound, and_plan_sound,
  or_xor_plans_sound,
}

-- No float is computed in these tests.
abbrev floats : Floats
floats = record { unary = λ k t x. x; binary = λ k t x y. x; fma = λ t x y z. x }

abbrev info : Info
info = record {
  backend = JitBackend.llvm;
  type = VarType.uint32;
  simplify = true;
  literal = false;
  fast_math = false;
}

abbrev seven : Operand
seven = record { index = 1; lit = false; literal = 0; type = VarType.uint32 }

abbrev nought : Operand
nought = record { index = 2; lit = true; literal = 0; type = VarType.uint32 }

seven-nought-Lane : Lane VarType.uint32 info seven nought 7 0
seven-nought-Lane = record {
  int = refl;
  type = refl;
  type0 = refl;
  type1 = refl;
  literal = refl;
  lit0 = λ h. ground arith;
  lit1 = λ h. refl;
  same = λ h. ground arith;
  x_fits = omega arith;
  y_fits = omega arith;
}

sum_plans_sound_example :
    (lane floats VarType.uint32 (plan_add floats info seven nought) 7 0
      ≡ fold floats VarKind.add VarType.uint32 7 0)
    × (lane floats VarType.uint32 (plan_sub floats info seven nought) 7 0
        ≡ fold floats VarKind.sub VarType.uint32 7 0)
sum_plans_sound_example =
    sum_plans_sound floats VarType.uint32 info seven nought 7 0 seven-nought-Lane

compare_plans_sound_example :
    (lane floats VarType.uint32 (plan_eq floats info seven nought) 7 0
      ≡ fold floats VarKind.eq VarType.uint32 7 0)
    × (lane floats VarType.uint32 (plan_neq floats info seven nought) 7 0
        ≡ fold floats VarKind.neq VarType.uint32 7 0)
    × (lane floats VarType.uint32 (plan_lt floats info seven nought) 7 0
        ≡ fold floats VarKind.lt VarType.uint32 7 0)
    × (lane floats VarType.uint32 (plan_le floats info seven nought) 7 0
        ≡ fold floats VarKind.le VarType.uint32 7 0)
    × (lane floats VarType.uint32 (plan_gt floats info seven nought) 7 0
        ≡ fold floats VarKind.gt VarType.uint32 7 0)
    × (lane floats VarType.uint32 (plan_ge floats info seven nought) 7 0
        ≡ fold floats VarKind.ge VarType.uint32 7 0)
compare_plans_sound_example =
    compare_plans_sound floats VarType.uint32 info seven nought 7 0 seven-nought-Lane

bound_plans_sound_example :
    (lane floats VarType.uint32 (plan_min floats info seven nought) 7 0
      ≡ fold floats VarKind.min VarType.uint32 7 0)
    × (lane floats VarType.uint32 (plan_max floats info seven nought) 7 0
        ≡ fold floats VarKind.max VarType.uint32 7 0)
bound_plans_sound_example =
    bound_plans_sound floats VarType.uint32 info seven nought 7 0 seven-nought-Lane

and_plan_sound_example :
    lane floats VarType.uint32 (plan_and floats info seven nought) 7 0
    ≡ fold floats VarKind.and VarType.uint32 7 0
and_plan_sound_example =
    and_plan_sound floats VarType.uint32 info seven nought 7 0 seven-nought-Lane

or_xor_plans_sound_example :
    lane floats VarType.uint32 (plan_or floats info seven nought) 7 0
      ≡ fold floats VarKind.or VarType.uint32 7 0
    × lane floats VarType.uint32 (plan_xor floats info seven nought) 7 0
      ≡ fold floats VarKind.xor VarType.uint32 7 0
or_xor_plans_sound_example =
    or_xor_plans_sound floats VarType.uint32 info seven nought 7 0 seven-nought-Lane
