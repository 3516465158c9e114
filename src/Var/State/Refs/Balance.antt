-- ===== src/Var/State/Refs/Balance.antt =====
-- src/var.cpp: the operations that add and drop one reference keep the accounts balanced.
use enoki_jit.Prelude.{
  ℕ, suc, ◌+◌, ◌%◌, ◌^◌, ◌<◌, false, ◌≡◌, List, ◌≢◌, inl, inr, [], some, get_elem?, set, ◌==◌,
  if◌then◌else◌, arith, Bool-cases, Option-cases, get_elem?-lt,
}
use enoki_jit.Prelude.Result.{ok}
use enoki_jit.RobinMap.{RobinMap}
use enoki_jit.Var.Key.{Variable, VariableKey}
use enoki_jit.Var.State.{State, is_unused, put_var, jitc_var, add_ref, jitc_var_inc_ref}
use enoki_jit.Var.State.Free.{live_count, jitc_var_free, jitc_var_dec_ref, jitc_var_dec_ref_se}
use enoki_jit.Var.State.Refs.{one, refs_of, se_refs_of, if_used, Counts, total-set, at-set}
use enoki_jit.Var.State.Refs.Count.{
  less, less_se, counted, counted_se, keep-Counts, die-Counts, keep_se-Counts, die_se-Counts,
}
use enoki_jit.Var.State.Refs.Loop.{zeros, minus_at, Balanced, free_loop-Counts}

-- One outside reference more at `i`.
abbrev pub plus_at : ℕ → (ℕ → ℕ) → ℕ → ℕ
plus_at i f j = if j == i then f j + 1 else f j

-- A variable with one reference more, where the count does not overflow.
abbrev pub more : Variable → Variable
more v = record v { ref_count = (v.ref_count + 1) % 2 ^ 32 }

pub more-Counts :
    (vs : List Variable) (ext ext_se : ℕ → ℕ) (i : ℕ) (v : Variable)
    → get_elem? vs i ≡ some v
    → is_unused v ≡ false
    → v.ref_count + 1 < 2 ^ 32
    → Counts vs ext ext_se [] zeros zeros
    → Counts (set vs i (more v)) (plus_at i ext) ext_se [] zeros zeros
more-Counts vs ext ext_se i v here u small c =
    let up : (more v).ref_count ≡ v.ref_count + 1 = omega arith in
    let still : is_unused (more v) ≡ false = ground arith in
    record {
      refs = λ j n. ground (
        arith,
        c.refs j n,
        at-set (λ x. x.ref_count) vs i j v (more v) here,
        total-set (if_used (refs_of j)) vs i v (more v) here,
      );
      se_refs = λ j n. ground (
        arith,
        c.se_refs j n,
        at-set (λ x. x.ref_count_se) vs i j v (more v) here,
        total-set (if_used (se_refs_of j)) vs i v (more v) here,
      );
      unused = tt;
    }

module _ {L : RobinMap VariableKey ℕ} (ext ext_se : ℕ → ℕ) (s : State L)
    (b : Balanced s ext ext_se) where
  -- A variable that is referenced from outside, or by a variable in use, is found.
  pub jitc_var_used :
      (i : ℕ) (v : Variable)
      → i ≢ 0
      → get_elem? s.variables i ≡ some v
      → is_unused v ≡ false
      → jitc_var s i ≡ ok v
  unfolding jitc_var
  jitc_var_used i v n here u = ground (arith, get_elem?-lt s.variables i v)

  -- In a balanced state, `jitc_var` finds every variable that is referenced from outside.
  pub held-jitc_var :
      (i : ℕ) → i ≢ 0 → 0 < ext i + ext_se i → (v : Variable) × (jitc_var s i ≡ ok v)
  held-jitc_var i n h = elim (Option-cases (get_elem? s.variables i)) [
    | inl e ↦ absurd (ground (arith, b.refs i n, b.se_refs i n))
    | inr (v, here) ↦ (v, jitc_var_used i v n here (ground (arith, b.refs i n, b.se_refs i n)))
  ]

  module _ (i : ℕ) (n : i ≢ 0) (pos : 0 < ext i) where
    moved : Counts s.variables (minus_at i ext) ext_se [] (λ j. one (i == j) + 0) zeros
    moved = record { refs = λ j z. ground (arith, b.refs j z); se_refs = b.se_refs; unused = tt }

    -- In a balanced state, dropping an outside reference to `i` succeeds: the variables that lose their last
    -- reference are freed in finitely many rounds, no count goes below 0, and afterwards every
    -- count is again the number of references, with one outside reference to `i` less.
    pub jitc_var_dec_ref-Balanced :
        (s' : State L) × (jitc_var_dec_ref s i ≡ ok s') × Balanced s' (minus_at i ext) ext_se
    unfolding jitc_var_dec_ref jitc_var_free
    jitc_var_dec_ref-Balanced = elim (Option-cases (get_elem? s.variables i)) [
      | inl e ↦ absurd (ground (arith, b.refs i n))
      | inr (v, here) ↦
          let c = counted _ (minus_at i ext) ext_se [] zeros zeros i v here n moved in
          let found = jitc_var_used i v n here (ground arith) in
          elim (Bool-cases (is_unused (less v))) [
            | inr u ↦ (
              put_var s i (less v),
              ground (arith, found),
              keep-Counts _ (minus_at i ext) ext_se [] zeros zeros i v here n moved u,
            )
            | inl u ↦
                let (s', run, done) =
                  free_loop-Counts (minus_at i ext) ext_se
                    (suc (live_count (set s.variables i (less v)))) i [] (put_var s i (less v))
                    (die-Counts _ (minus_at i ext) ext_se [] zeros zeros i v here n moved u)
                    (omega arith) in
                (s', ground (arith, found, run), done)
          ]
    ]

  -- In a balanced state, adding an outside reference to a variable that `jitc_var` finds succeeds, and the
  -- counts remain the numbers of references, if the count of that variable does not overflow.
  pub jitc_var_inc_ref-Balanced :
      (i : ℕ) (v : Variable)
      → i ≢ 0
      → jitc_var s i ≡ ok v
      → v.ref_count + 1 < 2 ^ 32
      → (s' : State L) × (jitc_var_inc_ref s i ≡ ok s') × Balanced s' (plus_at i ext) ext_se
  unfolding jitc_var_inc_ref add_ref jitc_var
  jitc_var_inc_ref-Balanced i v n found small =
      let u : is_unused v ≡ false = ground arith in
      let here : get_elem? s.variables i ≡ some v = ground arith in
      (
        put_var s i (more v),
        ground (arith, found),
        more-Counts s.variables ext ext_se i v here u small b,
      )

  module _ (i : ℕ) (n : i ≢ 0) (pos : 0 < ext_se i) where
    moved_se : Counts s.variables ext (minus_at i ext_se) [] zeros (λ j. one (i == j) + 0)
    moved_se = record { refs = b.refs; se_refs = λ j z. ground (arith, b.se_refs j z); unused = tt }

    -- In a balanced state, dropping an outside side-effect reference to `i` succeeds likewise, and
    -- afterwards every count is the number of references, with one such reference to `i` less.
    pub jitc_var_dec_ref_se-Balanced :
        (s' : State L) × (jitc_var_dec_ref_se s i ≡ ok s') × Balanced s' ext (minus_at i ext_se)
    unfolding jitc_var_dec_ref_se jitc_var_free
    jitc_var_dec_ref_se-Balanced = elim (Option-cases (get_elem? s.variables i)) [
      | inl e ↦ absurd (ground (arith, b.se_refs i n))
      | inr (v, here) ↦
          let c = counted_se _ ext (minus_at i ext_se) [] zeros zeros i v here n moved_se in
          let found = jitc_var_used i v n here (ground arith) in
          elim (Bool-cases (is_unused (less_se v))) [
            | inr u ↦ (
              put_var s i (less_se v),
              ground (arith, found),
              keep_se-Counts _ ext (minus_at i ext_se) [] zeros zeros i v here n moved_se u,
            )
            | inl u ↦
                let (s', run, done) =
                  free_loop-Counts ext (minus_at i ext_se)
                    (suc (live_count (set s.variables i (less_se v)))) i []
                    (put_var s i (less_se v))
                    (die_se-Counts _ ext (minus_at i ext_se) [] zeros zeros i v here n moved_se u)
                    (omega arith) in
                (s', ground (arith, found, run), done)
          ]
    ]
