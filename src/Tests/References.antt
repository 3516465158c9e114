-- ===== src/Tests/References.antt =====
-- src/var.cpp: a literal, and a node over it that is held from outside.
use Prim.Native.String
use enoki_jit.Prelude.{◌+◌, ℕ, ◌≡◌, refl, ◌==◌, true, false, none, List, [], ◌∷◌, arith}
use enoki_jit.Prelude.Result.{ok}
use enoki_jit.RobinMap.{RobinMap}
use enoki_jit.Types.{VarType, JitBackend}
use enoki_jit.Types.Kind.{VarKind}
use enoki_jit.Var.Key.{Variable, zero_variable, no_deps}
use enoki_jit.Var.State.{no_extra, Flags, ThreadState, State, jitc_var, jitc_var_inc_ref}
use enoki_jit.Var.State.Free.{live_count, free_loop, jitc_var_dec_ref, jitc_var_dec_ref_se}
use enoki_jit.Var.State.Refs.{one, total, Counts}
use enoki_jit.Var.State.Refs.Loop.{zeros, minus_at, Balanced, free_loop-Counts}
use enoki_jit.Var.State.Refs.Balance
use enoki_jit.Var.State.Frees.{Frees}
use enoki_jit.Var.State.Frees.Loop.{jitc_var_dec_ref-Collects}
use enoki_jit.Tests.Maps.{key_map}

abbrev pub unit : ℕ → ℕ → Variable
unit refs se = record zero_variable {
  ref_count = refs;
  ref_count_se = se;
  scope = 2;
  literal = 1;
  size = 1;
  counter = 1;
  kind = VarKind.literal;
  backend = JitBackend.llvm;
  type = VarType.uint32;
}

-- `-x` for the literal at index 1.
abbrev pub negated : ℕ → Variable
negated refs = record zero_variable {
  ref_count = refs;
  scope = 2;
  dep = record no_deps { d0 = 1 };
  size = 1;
  counter = 2;
  kind = VarKind.neg;
  backend = JitBackend.llvm;
  type = VarType.uint32;
}

abbrev pub thread : ThreadState
thread = record { scope = 2; mask_stack = []; label_prefix = none }

abbrev pub all_flags : Flags
all_flags = record {
  value_numbering = true;
  reuse_indices = true;
  constant_propagation = true;
  fast_math = false;
  optimize_calls = true;
  symbolic_scope = false;
  debug = false;
}

unfoldable pub state_of : List Variable → State key_map
state_of vs = record {
  variables = vs;
  unused_variables = [];
  lvn_map = RobinMap.empty key_map;
  extra = no_extra ∷ [];
  unused_extra = [];
  scope_ctr = 2;
  variable_counter = 2;
  flags = all_flags;
  cuda = thread;
  llvm = thread;
  default_backend = JitBackend.llvm;
  location = String.[];
  released = [];
  notified = [];
}

unfoldable held : State key_map
unfolding state_of
held = state_of (zero_variable ∷ unit 1 0 ∷ negated 1 ∷ [])

-- One outside reference, to index 2.
abbrev pub only : ℕ → ℕ → ℕ
only i j = one (i == j)

held-Balanced : Balanced held (only 2) zeros
unfolding held state_of total
held-Balanced = record { refs = λ j n. ground arith; se_refs = λ j n. ground arith; unused = tt }

jitc_var_dec_ref-Collects_example :
    (s' : State key_map) × (jitc_var_dec_ref held 2 ≡ ok s')
    × Balanced s' (minus_at 2 (only 2)) zeros
    × Frees zeros held s'
jitc_var_dec_ref-Collects_example =
    jitc_var_dec_ref-Collects (only 2) zeros held held-Balanced 2 (ground arith) (omega arith)

-- The node has lost its last reference, and waits to be freed.
unfoldable dying : State key_map
unfolding state_of
dying = state_of (zero_variable ∷ unit 1 0 ∷ negated 0 ∷ [])

dying-Counts : Counts dying.variables zeros zeros (2 ∷ []) zeros zeros
unfolding dying state_of total
dying-Counts = record {
  refs = λ j n. ground arith;
  se_refs = λ j n. ground arith;
  unused = (ground arith, refl, tt);
}

free_loop-Counts_example :
    (s' : State key_map) × (free_loop 2 2 [] dying ≡ ok s')
    × Counts s'.variables zeros zeros [] zeros zeros
unfolding dying state_of live_count
free_loop-Counts_example = free_loop-Counts zeros zeros 2 2 [] dying dying-Counts (omega arith)

-- Index 2 is dirty, and stays so.
unfoldable dirty : State key_map
unfolding state_of
dirty = state_of (zero_variable ∷ unit 1 0 ∷ unit 1 1 ∷ [])

jitc_var_inc_ref-Balanced_example :
    (s' : State key_map) × (jitc_var_inc_ref held 2 ≡ ok s')
    × Balanced s' (Balance.plus_at 2 (only 2)) zeros
unfolding held state_of jitc_var
jitc_var_inc_ref-Balanced_example =
    Balance.jitc_var_inc_ref-Balanced (only 2) zeros held held-Balanced 2 (negated 1) (ground arith)
      refl (omega arith)

dirty-Balanced : Balanced dirty (λ j. only 1 j + only 2 j) (only 2)
unfolding dirty state_of total
dirty-Balanced = record { refs = λ j n. ground arith; se_refs = λ j n. ground arith; unused = tt }

jitc_var_dec_ref_se-Balanced_example :
    (s' : State key_map) × (jitc_var_dec_ref_se dirty 2 ≡ ok s')
    × Balanced s' (λ j. only 1 j + only 2 j) (minus_at 2 (only 2))
jitc_var_dec_ref_se-Balanced_example =
    Balance.jitc_var_dec_ref_se-Balanced (λ j. only 1 j + only 2 j) (only 2) dirty dirty-Balanced 2
      (ground arith) (omega arith)
