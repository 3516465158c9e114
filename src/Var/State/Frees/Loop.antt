-- ===== src/Var/State/Frees/Loop.antt =====
-- src/var.cpp: the loop of `jitc_var_free`, and dropping a reference, free what loses its last one.
use enoki_jit.Prelude.{
  ℕ, zero, suc, ◌-◌, false, ◌≡◌, refl, sym, ap, subst, ◌∙◌, ◌≢◌, inl, inr, List, [], ◌∷◌, some,
  none, get_elem?, ◌==◌, arith, Bool-cases, Option-cases, if_true, if_false, ◌<◌, set,
}
use enoki_jit.Prelude.Result.{Result, ok, bind_ok}
use enoki_jit.RobinMap.{RobinMap}
use enoki_jit.Var.Key.{Variable, VariableKey}
use enoki_jit.Var.State.{State, is_unused, put_var, jitc_var}
use enoki_jit.Var.State.Free.{
  Work, enlist, drop_ref, drop_ref_se, drop_four, drop_deps, release, next_index, free_loop,
  live_count, jitc_var_free, jitc_var_dec_ref,
}
use enoki_jit.Var.State.Refs.Count.{less, less_se}
use enoki_jit.Var.State.Refs.Drop.{waiting}
use enoki_jit.Var.State.Refs.Loop.{zeros, minus_at, Balanced, next_index-waiting}
use enoki_jit.Var.State.Refs.Balance.{jitc_var_dec_ref-Balanced}
use enoki_jit.Var.State.Store.{times}
use enoki_jit.Var.State.Frees.{Frees, Frees-congr, start-Frees, counted-Frees, release-Frees}

module _ {L : RobinMap VariableKey ℕ} (s : State L) where
  -- What has lost its last reference since `s` is freed, but for what the loop still has to free.
  abbrev WorkFrees : Work L → Type 0
  WorkFrees w = Frees (times (waiting w.next w.todo)) s w.state

  drop_ref-WorkFrees : (a : ℕ) (w w' : Work L) → WorkFrees w → drop_ref a w ≡ ok w' → WorkFrees w'
  unfolding drop_ref
  drop_ref-WorkFrees a w w' p h = elim (Bool-cases (a == 0)) [
    | inl z ↦ let result : w ≡ w' = ground arith in subst WorkFrees result p
    | inr z ↦ elim (Option-cases (get_elem? w.state.variables a)) [
      | inl e ↦ absurd (ground arith)
      | inr (v, here) ↦ elim (Bool-cases (v.ref_count == 0)) [
        | inl r ↦ absurd (ground arith)
        | inr r ↦
            let after =
              counted-Frees (times (waiting w.next w.todo)) s w.state a v (v.ref_count - 1)
                v.ref_count_se p here in
            let w1 : Work L = record w { state = put_var w.state a (less v) } in
            elim (Bool-cases (is_unused (less v))) [
              | inl u ↦
                  let result : enlist a w1 ≡ w' = ground arith in
                  subst WorkFrees result (Frees-congr _ _ s w1.state (λ j. ground arith) after)
              | inr u ↦
                  let result : w1 ≡ w' = ground arith in
                  subst WorkFrees result (Frees-congr _ _ s w1.state (λ j. ground arith) after)
            ]
      ]
    ]
  ]

  drop_ref_se-WorkFrees :
      (a : ℕ) (w w' : Work L) → w.next ≡ 0 → WorkFrees w → drop_ref_se a w ≡ ok w' → WorkFrees w'
  unfolding drop_ref_se
  drop_ref_se-WorkFrees a w w' none_next p h = elim (Bool-cases (a == 0)) [
    | inl z ↦ let result : w ≡ w' = ground arith in subst WorkFrees result p
    | inr z ↦ elim (Option-cases (get_elem? w.state.variables a)) [
      | inl e ↦ absurd (ground arith)
      | inr (v, here) ↦ elim (Bool-cases (v.ref_count_se == 0)) [
        | inl r ↦ absurd (ground arith)
        | inr r ↦
            let after =
              counted-Frees (times (waiting w.next w.todo)) s w.state a v v.ref_count
                (v.ref_count_se - 1) p here in
            let w1 : Work L = record w { state = put_var w.state a (less_se v) } in
            elim (Bool-cases (is_unused (less_se v))) [
              | inl u ↦
                  let result : record w1 { next = a } ≡ w' = ground arith in
                  subst WorkFrees result (Frees-congr _ _ s w1.state (λ j. ground arith) after)
              | inr u ↦
                  let result : w1 ≡ w' = ground arith in
                  subst WorkFrees result (Frees-congr _ _ s w1.state (λ j. ground arith) after)
            ]
      ]
    ]
  ]

  drop_deps-WorkFrees :
      (v : Variable) (w w' : Work L)
      → w.next ≡ 0
      → WorkFrees w
      → drop_deps v w ≡ ok w'
      → WorkFrees w'
  unfolding drop_deps drop_four
  drop_deps-WorkFrees v w w' n p h = elim (Bool-cases v.write_ptr) [
    | inl q ↦ drop_ref_se-WorkFrees v.dep.d3 w w' n p (sym (if_true _ _ q) ∙ h)
    | inr q ↦
        let d = v.dep in
        let (w0, h0, k0) = bind_ok _ _ _ (sym (if_false _ _ q) ∙ h) in
        let (w1, h1, k1) = bind_ok _ _ _ k0 in
        let (w2, h2, h3) = bind_ok _ _ _ k1 in
        drop_ref-WorkFrees d.d3 w2 w'
          (drop_ref-WorkFrees d.d2 w1 w2
            (drop_ref-WorkFrees d.d1 w0 w1 (drop_ref-WorkFrees d.d0 w w0 p h0) h1) h2)
          h3
  ]

  free_loop-Frees :
      (fuel i : ℕ) (todo : List ℕ) (t t' : State L)
      → Frees (times (i ∷ todo)) s t
      → free_loop fuel i todo t ≡ ok t'
      → Frees zeros s t'
  unfolding free_loop
  free_loop-Frees zero i todo t t' p h = absurd (ground arith)
  free_loop-Frees (suc fuel) i todo t t' p h = elim (Option-cases (get_elem? t.variables i)) [
    | inl e ↦ absurd (ground arith)
    | inr (v, here) ↦
        let w : Work L = record { next = 0; todo = todo; state = release t i v } in
        let rest : Work L → Result (State L) = λ x. elim (next_index x) [
          | none ↦ ok x.state
          | some (j, ps) ↦ free_loop fuel j ps x.state
        ] in
        let (w', e, m) = bind_ok (drop_deps v w) rest t' (rw here at h) in
        let before : WorkFrees w =
          Frees-congr _ _ s w.state (λ j. ground arith) (release-Frees t i v todo s p here) in
        let after = drop_deps-WorkFrees v w w' refl before e in
        elim (next_index-waiting zeros zeros w') [
          | inl (x, z) ↦
              let result : ok w'.state ≡ ok t' = rw x at m in
              let same : w'.state ≡ t' = ground arith in
              subst (Frees zeros s) same
                (Frees-congr _ _ s w'.state (λ j. ap (λ ps. times ps j) z) after)
          | inr (j, ps, x, z) ↦
              free_loop-Frees fuel j ps w'.state t'
                (Frees-congr _ _ s w'.state (λ q. ap (λ ps. times ps q) z) after) (rw x at m)
        ]
  ]

  -- Whatever the state, a reference that is dropped without failure frees all that it has to.
  pub jitc_var_dec_ref-Frees : (i : ℕ) (t : State L) → jitc_var_dec_ref s i ≡ ok t → Frees zeros s t
  unfolding jitc_var_dec_ref jitc_var_free jitc_var
  jitc_var_dec_ref-Frees i t h = elim (Bool-cases (i == 0)) [
    | inl z ↦ let same : s ≡ t = ground arith in subst (Frees zeros s) same (start-Frees zeros s)
    | inr z ↦
        let (v, found, run) = bind_ok (jitc_var s i) _ t (sym (if_false _ _ z) ∙ h) in
        let here : get_elem? s.variables i ≡ some v = ground (arith, found) in
        let counted : (v.ref_count == 0) ≡ false = elim (Bool-cases (v.ref_count == 0)) [
          | inl r ↦ absurd (ground (arith, run))
          | inr r ↦ r
        ] in
        let after =
          counted-Frees zeros s s i v (v.ref_count - 1) v.ref_count_se (start-Frees zeros s) here in
        elim (Bool-cases (is_unused (less v))) [
          | inr u ↦
              let same : put_var s i (less v) ≡ t = ground (arith, run) in
              subst (Frees zeros s) same
                (Frees-congr _ _ s (put_var s i (less v)) (λ j. ground arith) after)
          | inl u ↦
              let fuel = suc (live_count (set s.variables i (less v))) in
              let loop : free_loop fuel i [] (put_var s i (less v)) ≡ ok t = ground (arith, run) in
              free_loop-Frees fuel i [] (put_var s i (less v)) t
                (Frees-congr _ _ s (put_var s i (less v)) (λ j. ground arith) after) loop
        ]
  ]

-- In a state whose reference counts are all accounted for, dropping an outside reference succeeds and
-- leaves the counts accounted for. Every variable that has lost its last reference thereby is freed:
-- its index and its extra record can be used again, its data goes to jitc_free if it was evaluated
-- (unless that is to stay), and otherwise its key does not lead to it any more. All variables keep
-- their other fields, but for the counter of generations.
pub jitc_var_dec_ref-Collects :
    {L : RobinMap VariableKey ℕ} (ext ext_se : ℕ → ℕ) (s : State L)
    → Balanced s ext ext_se
    → (i : ℕ) → i ≢ 0
    → 0 < ext i
    → (t : State L) × (jitc_var_dec_ref s i ≡ ok t)
      × Balanced t (minus_at i ext) ext_se
      × Frees zeros s t
jitc_var_dec_ref-Collects ext ext_se s b i n pos =
    let (t, run, after) = jitc_var_dec_ref-Balanced ext ext_se s b i n pos in
    (t, run, after, jitc_var_dec_ref-Frees s i t run)
