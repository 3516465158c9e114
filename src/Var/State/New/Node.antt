-- ===== src/Var/State/New/Node.antt =====
-- src/var.cpp: `jitc_var_new_node_0` to `jitc_var_new_node_4`. `eval` is `jitc_eval` for the
-- backend's thread.
use enoki_jit.Prelude.{ℕ, Bool, false, ◌||◌, Option, none, some, if◌then◌else◌}
use enoki_jit.Prelude.Result.{Result, ok, err, raise, ◌>>=◌}
use enoki_jit.RobinMap.{RobinMap}
use enoki_jit.Types.{VarType, JitBackend}
use enoki_jit.Types.Kind.{VarKind}
use enoki_jit.Var.Key.{Deps, Variable, VariableKey, zero_variable, no_deps}
use enoki_jit.Var.State.{State, is_dirty, jitc_var, add_ref}
use enoki_jit.Var.State.New.{jitc_var_new}

-- The arguments that all five functions share.
pub record NodeArgs : Type 0 where
  pub backend : JitBackend
  pub kind : VarKind
  pub type : VarType
  pub size : ℕ
  pub symbolic : Bool
  pub payload : ℕ

abbrev pub node_of : NodeArgs → Deps → Variable
node_of a d = record zero_variable {
  dep = d;
  literal = a.payload;
  size = a.size;
  kind = a.kind;
  backend = a.backend;
  type = a.type;
  symbolic = a.symbolic;
}

module _ {L : RobinMap VariableKey ℕ} (eval : State L → JitBackend → Result (State L)) where
  -- `v = jitc_var(a); if (w->is_dirty()) jitc_raise_dirty_error(a)`, where `w` is `v` if none is given.
  abbrev pub recheck : State L → ℕ → Option Variable → Result Variable
  recheck s a w = do
    v ← jitc_var s a
    (if is_dirty (elim w [ none ↦ v | some x ↦ x ]) then err raise else ok v)

  -- `jitc_var_inc_ref(a, v)`, with the entry as it now stands.
  abbrev pub hold : State L → ℕ → Result (State L)
  hold s a = do v ← jitc_var s a; ok (add_ref s a v)

  pub jitc_var_new_node_0 : State L → NodeArgs → Result (ℕ × State L)
  jitc_var_new_node_0 s a = jitc_var_new s (node_of a no_deps) false

  pub jitc_var_new_node_1 : State L → NodeArgs → ℕ → Result (ℕ × State L)
  unfolding jitc_var add_ref jitc_var_new
  jitc_var_new_node_1 s a a0 = do
    v0 ← jitc_var s a0
    s1 ← (if is_dirty v0 then (do s' ← eval s a.backend; w0 ← recheck s' a0 none; ok s') else ok s)
    s2 ← hold s1 a0
    jitc_var_new s2 (node_of a (record no_deps { d0 = a0 })) false

  pub jitc_var_new_node_2 : State L → NodeArgs → ℕ → ℕ → Result (ℕ × State L)
  unfolding jitc_var add_ref jitc_var_new
  jitc_var_new_node_2 s a a0 a1 = do
    v0 ← jitc_var s a0
    v1 ← jitc_var s a1
    s1 ←
        (if is_dirty v0 || is_dirty v1
          then (do s' ← eval s a.backend; w0 ← recheck s' a0 none; w1 ← recheck s' a1 none; ok s')
          else ok s)
    s2 ← hold s1 a0
    s3 ← hold s2 a1
    jitc_var_new s3 (node_of a (record no_deps { d0 = a0; d1 = a1 })) false

  -- The check after the evaluation, which reads `v1` again where it means `v2`.
  unfoldable pub clean_3 : State L → JitBackend → ℕ → ℕ → ℕ → Result (State L)
  clean_3 s backend a0 a1 a2 = do
    v0 ← jitc_var s a0
    v1 ← jitc_var s a1
    v2 ← jitc_var s a2
    (if is_dirty v0 || is_dirty v1 || is_dirty v2
        then (do
          s' ← eval s backend
          w0 ← recheck s' a0 none
          w1 ← recheck s' a1 none
          w2 ← recheck s' a2 (some w1)
          ok s')
        else ok s)

  pub jitc_var_new_node_3 : State L → NodeArgs → ℕ → ℕ → ℕ → Result (ℕ × State L)
  unfolding clean_3 add_ref jitc_var_new
  jitc_var_new_node_3 s a a0 a1 a2 = do
    s1 ← clean_3 s a.backend a0 a1 a2
    s2 ← hold s1 a0
    s3 ← hold s2 a1
    s4 ← hold s3 a2
    jitc_var_new s4 (node_of a (record no_deps { d0 = a0; d1 = a1; d2 = a2 })) false

  -- Likewise for `v2` and `v3`.
  unfoldable pub clean_4 : State L → JitBackend → ℕ → ℕ → ℕ → ℕ → Result (State L)
  clean_4 s backend a0 a1 a2 a3 = do
    v0 ← jitc_var s a0
    v1 ← jitc_var s a1
    v2 ← jitc_var s a2
    v3 ← jitc_var s a3
    (if is_dirty v0 || is_dirty v1 || is_dirty v2 || is_dirty v3
        then (do
          s' ← eval s backend
          w0 ← recheck s' a0 none
          w1 ← recheck s' a1 none
          w2 ← recheck s' a2 (some w1)
          w3 ← recheck s' a3 (some w1)
          ok s')
        else ok s)

  pub jitc_var_new_node_4 : State L → NodeArgs → ℕ → ℕ → ℕ → ℕ → Result (ℕ × State L)
  unfolding clean_4 add_ref jitc_var_new
  jitc_var_new_node_4 s a a0 a1 a2 a3 = do
    s1 ← clean_4 s a.backend a0 a1 a2 a3
    s2 ← hold s1 a0
    s3 ← hold s2 a1
    s4 ← hold s3 a2
    s5 ← hold s4 a3
    jitc_var_new s5 (node_of a (record { d0 = a0; d1 = a1; d2 = a2; d3 = a3 })) false
