-- ===== src/Tests/Sequences.antt =====
-- src/var.cpp: a literal is created in a new state, held once more, and given up once.
use enoki_jit.Prelude.{none, some, get_elem?, ◌^◌, ℕ, ◌+◌, ◌<◌, ◌≡◌, refl, ◌≢◌, false, arith}
use enoki_jit.Prelude.Result.{Result, ok, err}
use enoki_jit.RobinMap.Assoc.{assoc_map}
use enoki_jit.Types.{VarType, JitBackend}
use enoki_jit.Types.Kind.{VarKind}
use enoki_jit.Var.Key.{Variable, zero_variable, variable_key}
use enoki_jit.Var.Key.Injective.{Fits}
use enoki_jit.Var.State.{State, new_state, jitc_var, jitc_var_inc_ref}
use enoki_jit.Var.State.Free.{jitc_var_dec_ref}
use enoki_jit.Var.State.New.{prepare, jitc_var_new, take_index, label_new}
use enoki_jit.Var.State.New.Value.{Sound}
use enoki_jit.Var.State.Refs.Loop.{zeros, minus_at}
use enoki_jit.Var.State.Refs.Balance.{plus_at}
use enoki_jit.Var.State.Runs
use enoki_jit.Tests.Maps.{key_map}
use enoki_jit.Tests.References.{all_flags, thread}

abbrev seven : Variable
seven = record zero_variable {
  literal = 7;
  size = 1;
  kind = VarKind.literal;
  backend = JitBackend.llvm;
  type = VarType.uint32;
}

-- The state after a creation; a failure leaves it as it was, which no test relies on.
abbrev made : State key_map → Result (ℕ × State key_map) → State key_map
made s (ok (i, t)) = t
made s (err e) = s

abbrev after : State key_map → Result (State key_map) → State key_map
after s (ok t) = t
after s (err e) = s

abbrev kept : State key_map → ℕ → Variable
kept s i = elim (get_elem? s.variables i) [ none ↦ zero_variable | some v ↦ v ]

unfoldable begun : State key_map
unfolding new_state
begun = new_state key_map all_flags thread thread JitBackend.llvm

unfoldable filled : State key_map
unfolding begun jitc_var_new take_index label_new key_map assoc_map variable_key
filled = made begun (jitc_var_new begun seven false)

filled_lem : jitc_var_new begun seven false ≡ ok (1, filled)
unfolding begun filled jitc_var_new take_index label_new key_map assoc_map variable_key new_state
filled_lem = refl

seven-Fits : Fits (prepare begun seven)
unfolding begun new_state prepare
seven-Fits = record {
  d0 = omega arith;
  d1 = omega arith;
  d2 = omega arith;
  d3 = omega arith;
  scope = omega arith;
}

-- One reference more, and one less again.
unfoldable twice : State key_map
unfolding filled jitc_var_inc_ref
twice = after filled (jitc_var_inc_ref filled 1)

unfoldable once : State key_map
unfolding twice jitc_var_dec_ref
once = after twice (jitc_var_dec_ref twice 1)

twice_lem : jitc_var_inc_ref filled 1 ≡ ok twice
unfolding begun filled twice jitc_var_inc_ref jitc_var_new take_index label_new key_map assoc_map
    variable_key new_state
twice_lem = refl

once_lem : jitc_var_dec_ref twice 1 ≡ ok once
unfolding begun filled twice once jitc_var_inc_ref jitc_var_dec_ref jitc_var_new take_index
    label_new key_map assoc_map variable_key new_state
once_lem = refl

found_seven : jitc_var filled 1 ≡ ok (kept filled 1)
unfolding begun filled jitc_var jitc_var_new take_index label_new key_map assoc_map variable_key
    new_state
found_seven = refl

small_count : (kept filled 1).ref_count + 1 < 2 ^ 32
unfolding begun filled jitc_var_new take_index label_new key_map assoc_map variable_key new_state
small_count = omega arith

-- What the client holds after each call.
abbrev held_once : ℕ → ℕ
held_once = plus_at 1 zeros

abbrev held_twice : ℕ → ℕ
held_twice = plus_at 1 held_once

seven-Run : Runs.Run begun zeros zeros once (minus_at 1 held_twice) zeros
unfolding begun new_state
seven-Run =
    let created = Runs.Run.call begun filled zeros zeros held_once zeros Runs.Run.done (
      Runs.Step.new filled 1 seven false zeros zeros (λ j n. ground arith) (λ j n. ground arith)
        refl refl refl refl seven-Fits (λ j x h. ground arith) filled_lem) in
    let added = Runs.Run.call filled twice held_once zeros held_twice zeros created (
      Runs.Step.inc_ref twice 1 (kept filled 1) (ground arith) found_seven small_count twice_lem) in
    Runs.Run.call twice once held_twice zeros (minus_at 1 held_twice) zeros added
      (Runs.Step.dec_ref once 1 (ground arith) (omega arith) once_lem)

Run-jitc_var_example :
    Sound once (minus_at 1 held_twice) zeros
    × ((i : ℕ)
        → i ≢ 0
        → 0 < minus_at 1 held_twice i + zeros i
        → (v : Variable) × (jitc_var once i ≡ ok v))
unfolding begun
Run-jitc_var_example =
    Runs.Run-jitc_var all_flags thread thread JitBackend.llvm once (minus_at 1 held_twice) zeros
      seven-Run
