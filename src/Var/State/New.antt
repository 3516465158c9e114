-- ===== src/Var/State/New.antt =====
-- src/var.cpp: `jitc_var_new`, which numbers values, and the constructors without operands.
pub mod Node
pub mod Room
pub mod Label
pub mod Insert
pub mod Reuse
pub mod Value
use Prim.Native.String.{String}
use Prim.Native.String
use enoki_jit.Prelude.{
  ℕ, zero, suc, ◌+◌, ◌-◌, ◌*◌, ◌%◌, ◌^◌, Bool, true, false, not, ◌&&◌, ◌||◌, List, [], ◌∷◌, ◌++◌,
  Option, none, some, length, get_elem?, set, ltb, ◌==◌, if◌then◌else◌,
}
use enoki_jit.Prelude.Result.{Result, ok, err, raise, fail, ◌>>=◌}
use enoki_jit.RobinMap.{RobinMap}
use enoki_jit.Types.{VarType, JitBackend, type_size, is_void}
use enoki_jit.Types.Kind.{VarKind, is_evaluated, is_literal}
use enoki_jit.Var.Key.{Deps, Variable, VariableKey, variable_key, zero_variable, no_deps}
use enoki_jit.Var.State.{
  no_extra, Flags, Extra, ThreadState, State, or_fail, is_unused, put_var, thread_state, jitc_var,
  add_ref, jitc_var_inc_ref, jitc_var_inc_ref_se,
}
use enoki_jit.Var.State.Free.{jitc_var_dec_ref, jitc_var_dec_ref_se}

abbrev pub backend_or : JitBackend → JitBackend → JitBackend
backend_or JitBackend.none d = d
backend_or b d = b

abbrev pub text_of : Option String → String
text_of none = String.[]
text_of (some t) = t

-- `jitc_check_size`.
abbrev pub check_size : ℕ → Bool
check_size size = not (ltb 0xffff_ffff size)

module _ {L : RobinMap VariableKey ℕ} where
  -- "Return the 'VariableExtra' record associated with a variable (or create it)".
  unfoldable pub jitc_var_extra : State L → ℕ → Result (ℕ × State L)
  jitc_var_extra s i = do
    v ← or_fail (get_elem? s.variables i)
    (if not (v.extra == 0) then ok (v.extra, s) else elim s.unused_extra [
      | [] ↦ ok (
        length s.extra,
        record s {
          extra = s.extra ++ no_extra ∷ [];
          variables = set s.variables i (record v { extra = length s.extra });
        },
      )
      | e ∷ rest ↦ ok (
        e,
        record s {
          extra = set s.extra e no_extra;
          unused_extra = rest;
          variables = set s.variables i (record v { extra = e });
        },
      )
    ])

  -- The label of a new variable: the prefix, then the source location in debug mode.
  unfoldable pub label_new : State L → JitBackend → ℕ → Result (State L)
  unfolding jitc_var_extra
  label_new s b i =
      let prefix = (thread_state s b).label_prefix in
      let has_prefix : Bool = elim prefix [ none ↦ false | some _ ↦ true ] in
      let has_loc =
        s.flags.debug && elim s.location [ String.[] ↦ false | String.◌∷◌ _ _ ↦ true ] in
      if has_prefix || has_loc
      then (do
        (e, s') ← jitc_var_extra s i
        x ← or_fail (get_elem? s'.extra e)
        ok (record s' {
          extra = set s'.extra e (record x {
            label = some (String.◌++◌ (text_of prefix) (if has_loc then s.location else String.[]));
          });
        }))
      else ok s

  -- `v.scope = ts->scope`, after the default backend is filled in.
  unfoldable pub prepare : State L → Variable → Variable
  prepare s v =
      let b = backend_or v.backend s.default_backend in
      record v { backend = b; scope = (thread_state s b).scope }

  -- Is the statement subject to value numbering?
  unfoldable pub is_numbered : State L → Variable → Bool → Bool
  is_numbered s v disable_lvn =
      not disable_lvn
      && not (is_void v.type)
      && not (is_evaluated v.kind)
      && s.flags.value_numbering

  -- The index of a new entry, and the state that has room for it.
  unfoldable pub take_index : State L → ℕ × State L
  take_index s =
      let fresh : ℕ × State L =
        (length s.variables, record s { variables = s.variables ++ zero_variable ∷ [] }) in
      if s.flags.reuse_indices
      then elim s.unused_variables [
        | [] ↦ fresh
        | i ∷ rest ↦ (i, record s { unused_variables = rest })
      ]
      else fresh

  -- A new entry. `key_it.value() = index` has been done if the value is numbered.
  unfoldable pub insert_new : State L → Variable → Bool → Result (ℕ × State L)
  unfolding add_ref
  insert_new s v lvn = do
    let (i, s1) = take_index s
    vo ← or_fail (get_elem? s1.variables i)
    (if not (is_unused vo) then err fail else do
      let s2 = put_var s1 i (record v { counter = vo.counter })
      let s3 = if lvn then record s2 { lvn_map = L.put s2.lvn_map (variable_key v) i } else s2
      s4 ← label_new s3 v.backend i
      vn ← or_fail (get_elem? s4.variables i)
      ok (i, add_ref (record s4 { variable_counter = s4.variable_counter + 1 }) i vn))

  -- The references that the caller took for the operands are not needed when the value exists.
  unfoldable pub drop_operands : State L → Variable → Result (State L)
  unfolding jitc_var_dec_ref jitc_var_dec_ref_se
  drop_operands s v = if v.write_ptr then jitc_var_dec_ref_se s v.dep.d3 else do
    s0 ← jitc_var_dec_ref s v.dep.d0
    s1 ← jitc_var_dec_ref s0 v.dep.d1
    s2 ← jitc_var_dec_ref s1 v.dep.d2
    jitc_var_dec_ref s2 v.dep.d3

  unfoldable pub reuse_value : State L → Variable → ℕ → Result (ℕ × State L)
  unfolding drop_operands add_ref
  reuse_value s v i = do
    s1 ← drop_operands s v
    vo ← or_fail (get_elem? s1.variables i)
    (if is_unused vo then err fail else ok (i, add_ref s1 i vo))

  -- "Append the given variable to the instruction trace and return its ID".
  unfoldable pub jitc_var_new : State L → Variable → Bool → Result (ℕ × State L)
  unfolding prepare is_numbered insert_new reuse_value
  jitc_var_new s v0 disable_lvn =
      let v = prepare s v0 in
      if is_numbered s v disable_lvn
      then elim (L.find s.lvn_map (variable_key v)) [
        | none ↦ insert_new s v true
        | some i ↦ reuse_value s v i
      ]
      else insert_new s v false

  -- `jitc_var_literal` with `eval` off: the value is cut to the size of the type.
  unfoldable pub jitc_var_literal : State L → JitBackend → VarType → ℕ → ℕ → Result (ℕ × State L)
  unfolding jitc_var_new
  jitc_var_literal s backend type value size =
      if size == 0
      then ok (0, s)
      else if check_size size
      then jitc_var_new s
          (record zero_variable {
            literal = value % 256 ^ type_size type;
            kind = VarKind.literal;
            type = type;
            size = size;
            backend = backend;
          })
          false
      else err raise

  pub jitc_var_bool : State L → JitBackend → Bool → Result (ℕ × State L)
  unfolding jitc_var_new
  jitc_var_bool s backend value =
      jitc_var_new s
        (record zero_variable {
          literal = if value then 1 else 0;
          kind = VarKind.literal;
          type = VarType.bool;
          size = 1;
          backend = backend;
        })
        false

  pub jitc_var_u32 : State L → JitBackend → ℕ → Result (ℕ × State L)
  unfolding jitc_var_new
  jitc_var_u32 s backend value =
      jitc_var_new s
        (record zero_variable {
          literal = value % 2 ^ 32;
          kind = VarKind.literal;
          type = VarType.uint32;
          size = 1;
          backend = backend;
        })
        false

  -- `std::swap(scope_backup, ts->scope)`.
  abbrev pub set_scope : State L → JitBackend → ℕ → State L
  set_scope s JitBackend.cuda n = record s { cuda = record (s.cuda) { scope = n } }
  set_scope s _ n = record s { llvm = record (s.llvm) { scope = n } }

  -- "Pointer variables live in a global scope with ID '1'".
  pub jitc_var_pointer : State L → JitBackend → ℕ → ℕ → Bool → Result (ℕ × State L)
  unfolding jitc_var_new jitc_var_inc_ref jitc_var_inc_ref_se
  jitc_var_pointer s backend value dep write = do
    s1 ← (if write then jitc_var_inc_ref_se s dep else jitc_var_inc_ref s dep)
    let backup = (thread_state s1 backend).scope
    (r, s2) ←
        jitc_var_new (set_scope s1 backend 1)
          (record zero_variable {
            kind = VarKind.literal;
            type = VarType.pointer;
            size = 1;
            literal = value;
            backend = backend;
            dep = record { d0 = 0; d1 = 0; d2 = 0; d3 = dep };
            write_ptr = write;
          })
          false
    ok (r, set_scope s2 backend backup)

  pub jitc_var_undefined : State L → JitBackend → VarType → ℕ → Result (ℕ × State L)
  unfolding jitc_var_new
  jitc_var_undefined s backend type size =
      if size == 0
      then ok (0, s)
      else if check_size size
      then jitc_var_new s
          (record zero_variable {
            kind = VarKind.undefined;
            backend = backend;
            type = type;
            size = size;
            literal = 2 ^ 64 - 1;
          })
          false
      else err raise

  unfoldable pub jitc_var_counter : State L → JitBackend → ℕ → Bool → Result (ℕ × State L)
  unfolding jitc_var_new jitc_var_literal
  jitc_var_counter s backend size simplify_scalar =
      if size == 1 && simplify_scalar && not s.flags.symbolic_scope
      then jitc_var_literal s backend VarType.uint32 0 1
      else if check_size size
      then jitc_var_new s
          (record zero_variable {
            kind = VarKind.counter;
            backend = backend;
            type = VarType.uint32;
            size = size;
          })
          false
      else err raise

  pub jitc_var_call_input : State L → ℕ → Result (ℕ × State L)
  unfolding jitc_var_new jitc_var_inc_ref jitc_var
  jitc_var_call_input s i = if i == 0 then err raise else do
    v ← jitc_var s i
    let v2 : Variable = record zero_variable { backend = v.backend; type = v.type; size = 1 }
    (if is_literal v.kind && s.flags.optimize_calls
        then jitc_var_new s (record v2 { kind = VarKind.literal; literal = v.literal }) false
        else do
          s1 ← jitc_var_inc_ref s i
          jitc_var_new s1
              (record v2 {
                kind = VarKind.call_input;
                symbolic = true;
                dep = record { d0 = i; d1 = 0; d2 = 0; d3 = 0 };
              })
              (not s.flags.optimize_calls))

  pub jitc_new_scope : State L → JitBackend → Result (ℕ × State L)
  jitc_new_scope s backend =
      let n = (s.scope_ctr + 1) % 2 ^ 32 in
      if n == 0 then err raise else ok (n, set_scope (record s { scope_ctr = n }) backend n)
