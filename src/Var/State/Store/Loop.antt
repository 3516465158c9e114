-- ===== src/Var/State/Store/Loop.antt =====
-- src/var.cpp: the loop of `jitc_var_free` keeps the free lists and the map of value numbering sound.
use enoki_jit.Prelude.{
  ℕ, zero, suc, ◌-◌, false, ◌≡◌, refl, sym, ap, subst, ◌∙◌, ◌≢◌, inl, inr, List, ◌∷◌, some, none,
  get_elem?, ◌==◌, arith, Bool-cases, Option-cases, if_true, if_false,
}
use enoki_jit.Prelude.Result.{Result, ok, bind_ok}
use enoki_jit.RobinMap.{RobinMap}
use enoki_jit.Var.Key.{Deps, Variable, VariableKey}
use enoki_jit.Var.State.{State, is_unused, put_var}
use enoki_jit.Var.State.Free.{
  Work, enlist, drop_ref, drop_ref_se, drop_four, drop_deps, release, next_index, free_loop,
}
use enoki_jit.Var.State.Refs.Count.{less, less_se}
use enoki_jit.Var.State.Refs.Drop.{waiting}
use enoki_jit.Var.State.Refs.Loop.{zeros, next_index-waiting}
use enoki_jit.Var.State.Store.{times, Store, Store-congr, counted-Store}
use enoki_jit.Var.State.Store.Release.{release-Store}

module _ {L : RobinMap VariableKey ℕ} where
  -- The store is sound but for the variables that the loop still has to free.
  abbrev pub WorkStore : Work L → Type 0
  WorkStore w = Store w.state (times (waiting w.next w.todo))

  drop_ref-WorkStore : (a : ℕ) (w w' : Work L) → WorkStore w → drop_ref a w ≡ ok w' → WorkStore w'
  unfolding drop_ref
  drop_ref-WorkStore a w w' st h = elim (Bool-cases (a == 0)) [
    | inl z ↦ let result : w ≡ w' = ground arith in subst WorkStore result st
    | inr z ↦ elim (Option-cases (get_elem? w.state.variables a)) [
      | inl e ↦ absurd (ground arith)
      | inr (v, here) ↦ elim (Bool-cases (v.ref_count == 0)) [
        | inl r ↦ absurd (ground arith)
        | inr r ↦
            let n : a ≢ 0 = ground arith in
            let used : is_unused v ≡ false = ground arith in
            let after =
              counted-Store w.state (times (waiting w.next w.todo)) st a v n here used
                (v.ref_count - 1) v.ref_count_se in
            let w1 : Work L = record w { state = put_var w.state a (less v) } in
            elim (Bool-cases (is_unused (less v))) [
              | inl u ↦
                  let result : enlist a w1 ≡ w' = ground arith in
                  subst WorkStore result (Store-congr w1.state _ _ (λ j. ground arith) after)
              | inr u ↦
                  let result : w1 ≡ w' = ground arith in
                  subst WorkStore result (Store-congr w1.state _ _ (λ j. ground arith) after)
            ]
      ]
    ]
  ]

  -- The side-effect variant is used where nothing is to be freed next.
  drop_ref_se-WorkStore :
      (a : ℕ) (w w' : Work L) → w.next ≡ 0 → WorkStore w → drop_ref_se a w ≡ ok w' → WorkStore w'
  unfolding drop_ref_se
  drop_ref_se-WorkStore a w w' none_next st h = elim (Bool-cases (a == 0)) [
    | inl z ↦ let result : w ≡ w' = ground arith in subst WorkStore result st
    | inr z ↦ elim (Option-cases (get_elem? w.state.variables a)) [
      | inl e ↦ absurd (ground arith)
      | inr (v, here) ↦ elim (Bool-cases (v.ref_count_se == 0)) [
        | inl r ↦ absurd (ground arith)
        | inr r ↦
            let n : a ≢ 0 = ground arith in
            let used : is_unused v ≡ false = ground arith in
            let after =
              counted-Store w.state (times (waiting w.next w.todo)) st a v n here used v.ref_count
                (v.ref_count_se - 1) in
            let w1 : Work L = record w { state = put_var w.state a (less_se v) } in
            elim (Bool-cases (is_unused (less_se v))) [
              | inl u ↦
                  let result : record w1 { next = a } ≡ w' = ground arith in
                  subst WorkStore result (Store-congr w1.state _ _ (λ j. ground arith) after)
              | inr u ↦
                  let result : w1 ≡ w' = ground arith in
                  subst WorkStore result (Store-congr w1.state _ _ (λ j. ground arith) after)
            ]
      ]
    ]
  ]

  drop_four-WorkStore :
      (d : Deps) (w w' : Work L) → WorkStore w → drop_four d w ≡ ok w' → WorkStore w'
  unfolding drop_four
  drop_four-WorkStore d w w' st h =
      let (w0, h0, k0) = bind_ok _ _ _ h in
      let (w1, h1, k1) = bind_ok _ _ _ k0 in
      let (w2, h2, h3) = bind_ok _ _ _ k1 in
      drop_ref-WorkStore d.d3 w2 w'
        (drop_ref-WorkStore d.d2 w1 w2
          (drop_ref-WorkStore d.d1 w0 w1 (drop_ref-WorkStore d.d0 w w0 st h0) h1) h2)
        h3

  drop_deps-WorkStore :
      (v : Variable) (w w' : Work L)
      → w.next ≡ 0
      → WorkStore w
      → drop_deps v w ≡ ok w'
      → WorkStore w'
  unfolding drop_deps
  drop_deps-WorkStore v w w' n st h = elim (Bool-cases v.write_ptr) [
    | inl p ↦ drop_ref_se-WorkStore v.dep.d3 w w' n st (sym (if_true _ _ p) ∙ h)
    | inr p ↦ drop_four-WorkStore v.dep w w' st (sym (if_false _ _ p) ∙ h)
  ]

  -- Whenever the loop of `jitc_var_free` returns, the store that it leaves is sound, if the store was
  -- sound but for `i` and the variables on the TODO list, which wait to be freed.
  pub free_loop-Store :
      (fuel i : ℕ) (todo : List ℕ) (s s' : State L)
      → Store s (times (i ∷ todo))
      → free_loop fuel i todo s ≡ ok s'
      → Store s' zeros
  unfolding free_loop
  free_loop-Store zero i todo s s' st h = absurd (ground arith)
  free_loop-Store (suc fuel) i todo s s' st h = elim (Option-cases (get_elem? s.variables i)) [
    | inl e ↦ absurd (ground arith)
    | inr (v, here) ↦
        let w : Work L = record { next = 0; todo = todo; state = release s i v } in
        let (a, waits, c, d) = st.idle i (ground arith) in
        let rest : Work L → Result (State L) = λ x. elim (next_index x) [
          | none ↦ ok x.state
          | some (j, ps) ↦ free_loop fuel j ps x.state
        ] in
        let (w', e, m) = bind_ok (drop_deps v w) rest s' (rw here at h) in
        let before : WorkStore w =
          Store-congr w.state _ _ (λ j. ground (arith, waits))
            (release-Store s i v (times (i ∷ todo)) st here waits) in
        let after = drop_deps-WorkStore v w w' refl before e in
        elim (next_index-waiting zeros zeros w') [
          | inl (x, z) ↦
              let result : ok w'.state ≡ ok s' = rw x at m in
              let same : w'.state ≡ s' = ground arith in
              subst (λ (t : State L). Store t zeros) same
                (Store-congr w'.state _ _ (λ j. ap (λ ps. times ps j) z) after)
          | inr (j, ps, x, z) ↦
              free_loop-Store fuel j ps w'.state s'
                (Store-congr w'.state _ _ (λ q. ap (λ ps. times ps q) z) after) (rw x at m)
        ]
  ]
