-- ===== src/Tests/Numbering.antt =====
-- src/internal.h: two variables that only their reference counts tell apart have the same key.
use enoki_jit.Prelude.{ℕ, refl, arith}
use enoki_jit.Types.{VarType, JitBackend}
use enoki_jit.Types.Kind.{VarKind}
use enoki_jit.Var.Key.{Variable, variable_key, zero_variable}
use enoki_jit.Var.Key.Injective.{Fits, SameValue, variable_key_injective}

abbrev sum_of : ℕ → Variable
sum_of refs = record zero_variable {
  ref_count = refs;
  scope = 0x1234_5678;
  dep = record { d0 = 1; d1 = 2; d2 = 0; d3 = 0 };
  size = 8;
  kind = VarKind.add;
  backend = JitBackend.llvm;
  type = VarType.uint32;
}

sum_of-Fits : (refs : ℕ) → Fits (sum_of refs)
sum_of-Fits refs = record {
  d0 = omega arith;
  d1 = omega arith;
  d2 = omega arith;
  d3 = omega arith;
  scope = omega arith;
}

variable_key_injective_example : SameValue (sum_of 0) (sum_of 3)
unfolding variable_key
variable_key_injective_example =
    variable_key_injective (sum_of 0) (sum_of 3) (sum_of-Fits 0) (sum_of-Fits 3) refl
