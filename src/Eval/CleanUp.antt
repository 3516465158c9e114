-- ===== src/Eval/CleanUp.antt =====
-- src/eval.cpp: the loop at the end of `jitc_eval_impl`, which releases what the launch has computed.
pub mod Edges
pub mod Balance
use enoki_jit.Prelude.{
  ℕ, ◌+◌, ◌%◌, ◌^◌, Bool, true, false, ◌&&◌, ◌||◌, Option, none, some, List, [], ◌∷◌, ◌++◌,
  get_elem?, ◌==◌, if◌then◌else◌,
}
use enoki_jit.Prelude.Result.{Result, ok, err, fail, ◌>>=◌}
use enoki_jit.RobinMap.{RobinMap}
use enoki_jit.Types.Kind.{VarKind, is_literal}
use enoki_jit.Var.Key.{Deps, no_deps, Variable, VariableKey}
use enoki_jit.Var.State.{State, or_fail, put_var, jitc_var, jitc_lvn_drop}
use enoki_jit.Var.State.Free.{jitc_var_dec_ref}
use enoki_jit.Eval.{ScheduledVariable}

-- The variable where its result is recorded, if it is an output of this size.
unfoldable pub take_output : ScheduledVariable → Variable → Variable
take_output sv v =
    if v.output_flag && v.size == sv.size
    then record v {
      kind = VarKind.evaluated;
      literal = sv.pointer;
      output_flag = false;
      consumed = false;
      scope = if v.is_array then 0 else v.scope;
    }
    else v

-- Its edges are removed from the variable.
unfoldable pub unlink : ScheduledVariable → Variable → Variable
unfolding take_output
unlink sv v = record (take_output sv v) { dep = no_deps; side_effect = false }

-- `reg_index` is reset, and a variable with a callback is kept until that has run.
abbrev pub settle : Bool → Variable → Variable
settle called v = record v {
  reg_index = 0;
  ref_count = if called then (v.ref_count + 1) % 2 ^ 32 else v.ref_count;
}

module _ {L : RobinMap VariableKey ℕ} where
  unfoldable pub has_callback : State L → Variable → Result Bool
  has_callback s v =
      if v.extra == 0
      then ok false
      else (do extra ← or_fail (get_elem? s.extra v.extra); ok extra.callback)

  unfoldable pub drop_edges : Deps → State L → Result (State L)
  unfolding jitc_var_dec_ref
  drop_edges d s = do
    s0 ← jitc_var_dec_ref s d.d0
    s1 ← jitc_var_dec_ref s0 d.d1
    s2 ← jitc_var_dec_ref s1 d.d2
    jitc_var_dec_ref s2 d.d3

  -- The end of the body, for an output or a side effect.
  unfoldable pub release_edges : ScheduledVariable → Variable → State L → Result (State L)
  unfolding unlink jitc_lvn_drop jitc_var_dec_ref drop_edges
  release_edges sv v s = if is_literal v.kind then err fail else (do
    s1 ← jitc_var_dec_ref (put_var (jitc_lvn_drop s sv.index v) sv.index (unlink sv v)) sv.index
    s2 ← (if v.side_effect then jitc_var_dec_ref s1 sv.index else ok s1)
    drop_edges v.dep s2)

  -- One round of the loop, with `eval_callbacks`.
  unfoldable pub clean_up_one : ScheduledVariable → List ℕ → State L → Result (List ℕ × State L)
  unfolding jitc_var has_callback release_edges jitc_var_dec_ref
  clean_up_one sv callbacks s = do
    v0 ← jitc_var s sv.index
    called ← has_callback s v0
    let v = settle called v0
    let s0 = put_var s sv.index v
    s1 ←
        (if v.output_flag || v.side_effect
          then release_edges sv v s0
          else jitc_var_dec_ref s0 sv.index)
    ok ((if called then callbacks ++ sv.index ∷ [] else callbacks), s1)

  unfoldable pub clean_up : List ScheduledVariable → List ℕ → State L → Result (List ℕ × State L)
  unfolding clean_up_one
  clean_up [] callbacks s = ok (callbacks, s)
  clean_up (sv ∷ rest) callbacks s = do
    (callbacks1, s1) ← clean_up_one sv callbacks s
    clean_up rest callbacks1 s1
