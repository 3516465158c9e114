-- ===== src/Var/State/Free.antt =====
-- src/var.cpp: `jitc_var_free` and the functions that give up a reference. Callbacks are recorded
-- in `notified`; what they do is not modelled. Freed data is recorded in `released`.
use enoki_jit.Prelude.{
  ℕ, zero, suc, ◌+◌, ◌-◌, ◌%◌, ◌^◌, List, [], ◌∷◌, Option, none, some, get_elem?, ◌==◌,
  if◌then◌else◌,
}
use enoki_jit.Prelude.PriorityQueue.{pq_push}
use enoki_jit.Prelude.Result.{Result, ok, err, fail, ◌>>=◌}
use enoki_jit.RobinMap.{RobinMap}
use enoki_jit.Types.Kind.{is_evaluated}
use enoki_jit.Var.Key.{Deps, Variable, VariableKey}
use enoki_jit.Var.State.{State, or_fail, is_unused, put_var, jitc_var, jitc_lvn_drop}

-- The number of variables that are in use.
unfoldable pub live_count : List Variable → ℕ
live_count [] = 0
live_count (v ∷ vs) = (if is_unused v then 0 else 1) + live_count vs

-- What the loop carries: the variable to free next (0 if none), the TODO list, and the state.
pub record Work (L : RobinMap VariableKey ℕ) : Type 0 where
  pub next : ℕ
  pub todo : List ℕ
  pub state : State L

module _ {L : RobinMap VariableKey ℕ} where
  -- "Notify callback that the variable was freed", then recycle the extra record.
  unfoldable pub drop_extra : State L → ℕ → ℕ → State L
  drop_extra s i e = if e == 0 then s else record s {
    notified = elim (get_elem? s.extra e) [
      | none ↦ s.notified
      | some x ↦ if x.callback then i ∷ s.notified else s.notified
    ];
    unused_extra = pq_push e s.unused_extra;
  }

  -- The first half of the loop body: data or cache entry, counter, extra record, unused list.
  unfoldable pub release : State L → ℕ → Variable → State L
  unfolding drop_extra jitc_lvn_drop
  release s i v =
      let s1 =
        if is_evaluated v.kind
        then (if v.retain_data then s else record s { released = v.literal ∷ s.released })
        else jitc_lvn_drop s i v in
      let s2 =
        drop_extra (put_var s1 i (record v { counter = (v.counter + 1) % 2 ^ 32 })) i v.extra in
      record s2 { unused_variables = pq_push i s2.unused_variables }

  -- A variable lost its last reference: free it next, or push it on the TODO list.
  abbrev pub enlist : ℕ → Work L → Work L
  enlist i w = record w {
    next = if w.next == 0 then i else w.next;
    todo = if w.next == 0 then w.todo else i ∷ w.todo;
  }

  -- "Manually inlined version of jitc_var_dec_ref".
  unfoldable pub drop_ref : ℕ → Work L → Result (Work L)
  drop_ref i w = if i == 0 then ok w else do
    v ← or_fail (get_elem? w.state.variables i)
    (if v.ref_count == 0
        then err fail
        else (let v' : Variable = record v { ref_count = v.ref_count - 1 } in
            let w' : Work L = record w { state = put_var w.state i v' } in
            ok (if is_unused v' then enlist i w' else w')))

  -- "Manually inlined version of jitc_var_dec_ref_se".
  unfoldable pub drop_ref_se : ℕ → Work L → Result (Work L)
  drop_ref_se i w = if i == 0 then ok w else do
    v ← or_fail (get_elem? w.state.variables i)
    (if v.ref_count_se == 0
        then err fail
        else (let v' : Variable = record v { ref_count_se = v.ref_count_se - 1 } in
            let w' : Work L = record w { state = put_var w.state i v' } in
            ok (if is_unused v' then record w' { next = i } else w')))

  -- The `for` loop over the four dependencies.
  unfoldable pub drop_four : Deps → Work L → Result (Work L)
  drop_four d w = do
    w0 ← drop_ref d.d0 w
    w1 ← drop_ref d.d1 w0
    w2 ← drop_ref d.d2 w1
    drop_ref d.d3 w2

  -- The second half of the loop body: give up the references to the dependencies.
  unfoldable pub drop_deps : Variable → Work L → Result (Work L)
  drop_deps v w = if v.write_ptr then drop_ref_se v.dep.d3 w else drop_four v.dep w

  -- "Out of work, pull from todo list"; none at the `break`.
  unfoldable pub next_index : Work L → Option (ℕ × List ℕ)
  next_index w =
      if w.next == 0
      then elim w.todo [ [] ↦ none | t ∷ ts ↦ some (t, ts) ]
      else some (w.next, w.todo)

  -- The `do … while (true)` loop of `jitc_var_free`; each round frees one variable.
  unfoldable pub free_loop : ℕ → ℕ → List ℕ → State L → Result (State L)
  free_loop zero i todo s = err fail
  free_loop (suc fuel) i todo s = do
    v ← or_fail (get_elem? s.variables i)
    w ← drop_deps v (record { next = 0; todo = todo; state = release s i v })
    elim (next_index w) [ none ↦ ok w.state | some (j, rest) ↦ free_loop fuel j rest w.state ]

  -- The fuel counts the variable itself and all that may be freed after it.
  unfoldable pub jitc_var_free : State L → ℕ → Result (State L)
  unfolding free_loop
  jitc_var_free s i = free_loop (suc (live_count s.variables)) i [] s

  -- `jitc_var_dec_ref`; the assertion on the count is on.
  unfoldable pub jitc_var_dec_ref : State L → ℕ → Result (State L)
  unfolding jitc_var jitc_var_free
  jitc_var_dec_ref s i = if i == 0 then ok s else do
    v ← jitc_var s i
    (if v.ref_count == 0
        then err fail
        else (let v' : Variable = record v { ref_count = v.ref_count - 1 } in
            let s' = put_var s i v' in if is_unused v' then jitc_var_free s' i else ok s'))

  unfoldable pub jitc_var_dec_ref_se : State L → ℕ → Result (State L)
  unfolding jitc_var jitc_var_free
  jitc_var_dec_ref_se s i = if i == 0 then ok s else do
    v ← jitc_var s i
    (if v.ref_count_se == 0
        then err fail
        else (let v' : Variable = record v { ref_count_se = v.ref_count_se - 1 } in
            let s' = put_var s i v' in if is_unused v' then jitc_var_free s' i else ok s'))
