-- ===== src/Eval/CleanUp/Edges.antt =====
-- src/eval.cpp: what cleaning up leaves of the variable itself.
use enoki_jit.Prelude.{
  ℕ, Bool, true, false, ◌&&◌, ◌||◌, ◌≡◌, refl, ap, ◌∙◌, sym, subst, some, get_elem?, ◌==◌,
  if◌then◌else◌, arith, inl, inr, Bool-cases, if_true, if_false,
}
use enoki_jit.Prelude.Result.{ok, bind_ok, ok-injective}
use enoki_jit.RobinMap.{RobinMap}
use enoki_jit.Types.Kind.{VarKind}
use enoki_jit.Var.Key.{Deps, no_deps, Variable, VariableKey}
use enoki_jit.Var.State.{State}
use enoki_jit.Var.State.Free.{jitc_var_dec_ref}
use enoki_jit.Var.State.Frees.{Same, Same-trans}
use enoki_jit.Var.State.Frees.Loop.{jitc_var_dec_ref-Frees}
use enoki_jit.Eval.{ScheduledVariable}
use enoki_jit.Eval.CleanUp.{take_output, unlink, settle, drop_edges}

module _ {L : RobinMap VariableKey ℕ} where
  -- The variable at `i` is `v` up to its counts of references.
  abbrev pub Holds : State L → ℕ → Variable → Type 0
  Holds s i v = (w : Variable) × (get_elem? s.variables i ≡ some w) × Same v w

  dec_ref-Holds :
      (a i : ℕ) (v : Variable) (s t : State L)
      → jitc_var_dec_ref s a ≡ ok t
      → Holds s i v
      → Holds t i v
  dec_ref-Holds a i v s t run (w, here, e) =
      let (x, there, f) = (jitc_var_dec_ref-Frees s a t run).kept i w here in
      (x, there, Same-trans v w x e f)

  maybe-Holds :
      (c : Bool) (a i : ℕ) (v : Variable) (s t : State L)
      → (if c then jitc_var_dec_ref s a else ok s) ≡ ok t
      → Holds s i v
      → Holds t i v
  maybe-Holds true a i v s t run h = dec_ref-Holds a i v s t run h
  maybe-Holds false a i v s t run h = subst (λ u. Holds u i v) (ok-injective s t run) h

  drop_edges-Holds :
      (d : Deps) (i : ℕ) (v : Variable) (s t : State L)
      → drop_edges d s ≡ ok t
      → Holds s i v
      → Holds t i v
  unfolding drop_edges
  drop_edges-Holds d i v s t run h =
      let (s0, r0, k0) = bind_ok _ _ _ run in
      let (s1, r1, k1) = bind_ok _ _ _ k0 in
      let (s2, r2, r3) = bind_ok _ _ _ k1 in
      dec_ref-Holds d.d3 i v s2 t r3 (
        dec_ref-Holds d.d2 i v s1 s2 r2
          (dec_ref-Holds d.d1 i v s0 s1 r1 (dec_ref-Holds d.d0 i v s s0 r0 h)))

  -- The order in which `release_edges` drops references.
  pub released-Holds :
      (d : Deps) (effect : Bool) (i : ℕ) (v : Variable) (s s1 s2 t : State L)
      → jitc_var_dec_ref s i ≡ ok s1
      → (if effect then jitc_var_dec_ref s1 i else ok s1) ≡ ok s2
      → drop_edges d s2 ≡ ok t
      → get_elem? s.variables i ≡ some v
      → Holds t i v
  released-Holds d effect i v s s1 s2 t r1 r2 r3 here =
      drop_edges-Holds d i v s2 t r3
        (maybe-Holds effect i i v s1 s2 r2 (dec_ref-Holds i i v s s1 r1 (v, here, refl)))

  pub given-Holds :
      (i : ℕ) (v : Variable) (s t : State L)
      → jitc_var_dec_ref s i ≡ ok t
      → get_elem? s.variables i ≡ some v
      → Holds t i v
  given-Holds i v s t run here = dec_ref-Holds i i v s t run (v, here, refl)

-- Whether the variable is an output of the size for which it was computed.
abbrev pub is_computed : ScheduledVariable → Variable → Bool
is_computed sv v = v.output_flag && v.size == sv.size

-- What becomes of `v`: an output or a side effect has no operands any more, and an output of the
-- scheduled size holds its result.
pub record Cleaned (sv : ScheduledVariable) (v w : Variable) : Type 0 where
  pub dep : w.dep ≡ (if v.output_flag || v.side_effect then no_deps else v.dep)
  pub side_effect : w.side_effect ≡ false
  pub reg_index : w.reg_index ≡ 0
  pub kind : w.kind ≡ (if is_computed sv v then VarKind.evaluated else v.kind)
  pub literal : w.literal ≡ (if is_computed sv v then sv.pointer else v.literal)
  pub output_flag : w.output_flag ≡ (if is_computed sv v then false else v.output_flag)

Cleaned-Same :
    (sv : ScheduledVariable) (v w x : Variable) → Same w x → Cleaned sv v w → Cleaned sv v x
Cleaned-Same sv v w x e c = record {
  dep = ap (λ (y : Variable). y.dep) e ∙ c.dep;
  side_effect = ap (λ (y : Variable). y.side_effect) e ∙ c.side_effect;
  reg_index = ap (λ (y : Variable). y.reg_index) e ∙ c.reg_index;
  kind = ap (λ (y : Variable). y.kind) e ∙ c.kind;
  literal = ap (λ (y : Variable). y.literal) e ∙ c.literal;
  output_flag = ap (λ (y : Variable). y.output_flag) e ∙ c.output_flag;
}

unlink-Cleaned :
    (sv : ScheduledVariable) (called : Bool) (v : Variable)
    → (v.output_flag || v.side_effect) ≡ true
    → Cleaned sv v (unlink sv (settle called v))
unfolding unlink take_output
unlink-Cleaned sv called v e = elim (Bool-cases (is_computed sv v)) [
  | inl c ↦
      let out = ap (λ (y : Variable). y) (if_true _ _ c) in
      record {
        dep = sym (if_true _ _ e);
        side_effect = refl;
        reg_index = ap (λ (y : Variable). y.reg_index) out;
        kind = ap (λ (y : Variable). y.kind) out ∙ sym (if_true _ _ c);
        literal = ap (λ (y : Variable). y.literal) out ∙ sym (if_true _ _ c);
        output_flag = ap (λ (y : Variable). y.output_flag) out ∙ sym (if_true _ _ c);
      }
  | inr c ↦
      let out = ap (λ (y : Variable). y) (if_false _ _ c) in
      record {
        dep = sym (if_true _ _ e);
        side_effect = refl;
        reg_index = ap (λ (y : Variable). y.reg_index) out;
        kind = ap (λ (y : Variable). y.kind) out ∙ sym (if_false _ _ c);
        literal = ap (λ (y : Variable). y.literal) out ∙ sym (if_false _ _ c);
        output_flag = ap (λ (y : Variable). y.output_flag) out ∙ sym (if_false _ _ c);
      }
]

settle-Cleaned :
    (sv : ScheduledVariable) (called : Bool) (v : Variable)
    → (v.output_flag || v.side_effect) ≡ false
    → Cleaned sv v (settle called v)
settle-Cleaned sv called v e =
    let c : is_computed sv v ≡ false = ground arith in
    record {
      dep = sym (if_false _ _ e);
      side_effect = ground arith;
      reg_index = refl;
      kind = sym (if_false _ _ c);
      literal = sym (if_false _ _ c);
      output_flag = sym (if_false _ _ c);
    }

-- What the store holds of `v` after cleaning up.
abbrev pub Cleans : {L : RobinMap VariableKey ℕ} → ScheduledVariable → Variable → State L → Type 0
Cleans sv v t = (w : Variable) × (get_elem? t.variables sv.index ≡ some w) × Cleaned sv v w

module _ {L : RobinMap VariableKey ℕ} where
  pub unlink-Cleans :
      (sv : ScheduledVariable) (called : Bool) (v : Variable) (t : State L)
      → (v.output_flag || v.side_effect) ≡ true
      → Holds t sv.index (unlink sv (settle called v))
      → Cleans sv v t
  unlink-Cleans sv called v t e (w, here, same) =
      (w, here, Cleaned-Same sv v _ w same (unlink-Cleaned sv called v e))

  pub settle-Cleans :
      (sv : ScheduledVariable) (called : Bool) (v : Variable) (t : State L)
      → (v.output_flag || v.side_effect) ≡ false
      → Holds t sv.index (settle called v)
      → Cleans sv v t
  settle-Cleans sv called v t e (w, here, same) =
      (w, here, Cleaned-Same sv v _ w same (settle-Cleaned sv called v e))
