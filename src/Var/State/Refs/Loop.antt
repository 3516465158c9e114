-- ===== src/Var/State/Refs/Loop.antt =====
-- src/var.cpp: the loop of `jitc_var_free` ends, never fails, and keeps the accounts.
use enoki_jit.Prelude.{
  ℕ, zero, suc, ◌+◌, ◌-◌, ◌%◌, ◌^◌, ◌≤◌, ◌≡◌, refl, sym, ap, subst, ◌⊎◌, inl, inr, List, [], ◌∷◌,
  none, some, length, get_elem?, set, ◌==◌, if◌then◌else◌, arith, Bool-cases, Option-cases,
  List-cases, if_true, if_false, ◌∙◌,
}
use enoki_jit.Prelude.Result.{ok, ◌>>=◌}
use enoki_jit.RobinMap.{RobinMap}
use enoki_jit.Var.Key.{Deps, Variable, VariableKey}
use enoki_jit.Var.State.{State}
use enoki_jit.Var.State.Free.{
  live_count, Work, drop_four, drop_deps, release, next_index, free_loop,
}
use enoki_jit.Var.State.Refs.{
  one, occ, refs_of, se_refs_of, if_used, Counts, total-set, live_count-set, at-set, sum_at-set,
  AllUnused-set,
}
use enoki_jit.Var.State.Refs.Drop.{waiting, Drops, drop_ref-Drops, drop_ref_se-Drops, Counts-congr}

abbrev pub zeros : ℕ → ℕ
zeros j = 0

-- The entry after it was freed: its counter is one up.
abbrev bumped : Variable → Variable
bumped v = record v { counter = (v.counter + 1) % 2 ^ 32 }

-- A waiting variable is taken from the list: its references are in flight.
take-Counts :
    (ext ext_se : ℕ → ℕ) (vs : List Variable) (i : ℕ) (todo : List ℕ) (v : Variable)
    → get_elem? vs i ≡ some v
    → Counts vs ext ext_se (i ∷ todo) zeros zeros
    → Counts (set vs i (bumped v)) ext ext_se todo (λ j. refs_of j v) (λ j. se_refs_of j v)
take-Counts ext ext_se vs i todo v here c = record {
  refs = λ j z. ground (
    arith,
    c.refs j z,
    at-set (λ x. x.ref_count) vs i j v (bumped v) here,
    total-set (if_used (refs_of j)) vs i v (bumped v) here,
    sum_at-set (refs_of j) vs i v (bumped v) todo here refl,
  );
  se_refs = λ j z. ground (
    arith,
    c.se_refs j z,
    at-set (λ x. x.ref_count_se) vs i j v (bumped v) here,
    total-set (if_used (se_refs_of j)) vs i v (bumped v) here,
    sum_at-set (se_refs_of j) vs i v (bumped v) todo here refl,
  );
  unused = AllUnused-set vs i v (bumped v) todo here (λ e. e) c.unused.2;
}

module _ {L : RobinMap VariableKey ℕ} (ext ext_se : ℕ → ℕ) where
  drop_four-Drops :
      (d : Deps) (w : Work L)
      → Counts w.state.variables ext ext_se (waiting w.next w.todo) (λ j. occ j d) zeros
      → (w' : Work L) × (drop_four d w ≡ ok w') × Drops ext ext_se w w' zeros zeros
  unfolding drop_four
  drop_four-Drops d w c =
      let f3 : ℕ → ℕ = λ j. one (d.d3 == j) + 0 in
      let f2 : ℕ → ℕ = λ j. one (d.d2 == j) + f3 j in
      let f1 : ℕ → ℕ = λ j. one (d.d1 == j) + f2 j in
      let c0 =
        Counts-congr _ _ _ _ _ _ (λ j. one (d.d0 == j) + f1 j) zeros (λ j. omega arith) (λ j. refl)
          c in
      let (w0, e0, x0) = drop_ref-Drops ext ext_se d.d0 w f1 zeros c0 in
      let (w1, e1, x1) = drop_ref-Drops ext ext_se d.d1 w0 f2 zeros x0.counts in
      let (w2, e2, x2) = drop_ref-Drops ext ext_se d.d2 w1 f3 zeros x1.counts in
      let (w3, e3, x3) = drop_ref-Drops ext ext_se d.d3 w2 zeros zeros x2.counts in
      (
        w3,
        rw (e0, e1, e2) e3,
        record { counts = x3.counts; measure = x3.measure ∙ x2.measure ∙ x1.measure ∙ x0.measure },
      )

  -- Giving up all the references of a variable that is freed.
  drop_deps-Drops :
      (v : Variable) (w : Work L)
      → w.next ≡ 0
      → Counts w.state.variables ext ext_se
          (waiting w.next w.todo)
          (λ j. refs_of j v)
          (λ j. se_refs_of j v)
      → (w' : Work L) × (drop_deps v w ≡ ok w') × Drops ext ext_se w w' zeros zeros
  unfolding drop_deps
  drop_deps-Drops v w idle c = elim (Bool-cases v.write_ptr) [
    | inl p ↦
        let (w', e, d) = drop_ref_se-Drops ext ext_se v.dep.d3 w zeros zeros idle (
          Counts-congr _ _ _ _ _ _ zeros (λ j. one (v.dep.d3 == j) + 0) (λ j. if_true _ _ p)
            (λ j. if_true _ _ p ∙ omega arith) c) in
        (w', if_true _ _ p ∙ e, d)
    | inr p ↦
        let (w', e, d) = drop_four-Drops v.dep w (
          Counts-congr _ _ _ _ _ _ (λ j. occ j v.dep) zeros (λ j. if_false _ _ p)
            (λ j. if_false _ _ p) c) in
        (w', if_false _ _ p ∙ e, d)
  ]

  release-variables :
      (s : State L) (i : ℕ) (v : Variable)
      → (release s i v).variables ≡ set s.variables i (bumped v)
  unfolding release
  release-variables s i v = ground arith

  pub next_index-waiting :
      (w : Work L)
      → ((next_index w ≡ none) × (waiting w.next w.todo ≡ []))
        ⊎ ((j : ℕ) × (rest : List ℕ) × (next_index w ≡ some (j, rest))
            × (waiting w.next w.todo ≡ j ∷ rest))
  unfolding next_index
  next_index-waiting w = elim (Bool-cases (w.next == 0)) [
    | inr e ↦ inr (w.next, w.todo, rw e, rw e)
    | inl e ↦ elim (List-cases w.todo) [
      | inl t ↦ inl (rw (e, t), rw (e, t))
      | inr (j, rest, t) ↦ inr (j, rest, rw (e, t), rw (e, t))
    ]
  ]

  -- The loop of `jitc_var_free` ends without failure if the counts are right while `i` and the TODO
  -- list wait to be freed, and if the fuel is at least the number of variables in use or waiting.
  -- Afterwards nothing waits, and the counts are right.
  pub free_loop-Counts :
      (fuel i : ℕ) (todo : List ℕ) (s : State L)
      → Counts s.variables ext ext_se (i ∷ todo) zeros zeros
      → live_count s.variables + length (i ∷ todo) ≤ fuel
      → (s' : State L) × (free_loop fuel i todo s ≡ ok s')
        × Counts s'.variables ext ext_se [] zeros zeros
  unfolding free_loop
  free_loop-Counts zero i todo s c m = absurd (omega arith)
  free_loop-Counts (suc fuel) i todo s c m = elim (Option-cases (get_elem? s.variables i)) [
    | inl e ↦ absurd (ground (arith, c.unused.1))
    | inr (v, here) ↦
        let w : Work L = record { next = 0; todo = todo; state = release s i v } in
        let (w', e, d) = drop_deps-Drops v w refl (
          subst (λ vs. Counts vs ext ext_se todo (λ j. refs_of j v) (λ j. se_refs_of j v))
            (sym (release-variables s i v)) (take-Counts ext ext_se s.variables i todo v here c)) in
        let same : live_count (release s i v).variables ≡ live_count s.variables =
          ap live_count (release-variables s i v)
          ∙ ground (arith, live_count-set s.variables i v (bumped v) here, c.unused.1) in
        elim (next_index-waiting w') [
          | inl (x, z) ↦ (
            w'.state,
            rw (here, e, ◌>>=◌, x),
            subst (λ ps. Counts w'.state.variables ext ext_se ps zeros zeros) z d.counts,
          )
          | inr (j, rest, x, z) ↦
              let (s', run, done) =
                free_loop-Counts fuel j rest w'.state
                  (subst (λ ps. Counts w'.state.variables ext ext_se ps zeros zeros) z d.counts)
                  (omega (arith, d.measure, same, ap length z)) in
              (s', rw (here, e, ◌>>=◌, x) run, done)
        ]
  ]

-- One outside reference less at `i`.
abbrev pub minus_at : ℕ → (ℕ → ℕ) → ℕ → ℕ
minus_at i f j = if j == i then f j - 1 else f j

-- The accounts of a state at rest: every count is the number of references from outside and from
-- the dependencies of the variables in use.
abbrev pub Balanced : {L : RobinMap VariableKey ℕ} → State L → (ℕ → ℕ) → (ℕ → ℕ) → Type 0
Balanced s ext ext_se = Counts s.variables ext ext_se [] zeros zeros
