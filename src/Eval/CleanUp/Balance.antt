-- ===== src/Eval/CleanUp/Balance.antt =====
-- src/eval.cpp: cleaning up keeps the reference counts balanced.
use enoki_jit.Prelude.{
  ℕ, ◌+◌, ◌-◌, ◌^◌, ◌≤◌, ◌<◌, ◌≡◌, ◌≢◌, refl, ◌∙◌, sym, ap, subst, Bool, true, false, ◌&&◌, ◌||◌,
  some, List, [], ◌∷◌, ◌++◌, get_elem?, set, ◌==◌, if◌then◌else◌, if_true, if_false, if_both, inl,
  inr, Bool-cases, Option-cases, arith, get_elem?-set, get_elem?-lt,
}
use enoki_jit.Prelude.Result.{ok}
use enoki_jit.RobinMap.{RobinMap}
use enoki_jit.Types.Kind.{is_literal}
use enoki_jit.Var.Key.{Deps, no_deps, Variable, VariableKey, variable_key}
use enoki_jit.Var.State.{State, is_unused, put_var, jitc_lvn_drop}
use enoki_jit.Var.State.Free.{jitc_var_dec_ref}
use enoki_jit.Var.State.Refs.{one, occ, refs_of, se_refs_of, if_used, Counts, total-set, at-set}
use enoki_jit.Var.State.Refs.Loop.{zeros, Balanced}
use enoki_jit.Var.State.Refs.Balance.{jitc_var_used, jitc_var_dec_ref-Balanced}
use enoki_jit.Var.State.New.Reuse.{Balanced-congr}
use enoki_jit.Eval.CleanUp.Edges.{
  Holds, released-Holds, given-Holds, Cleans, unlink-Cleans, settle-Cleans,
}
use enoki_jit.Eval.{ScheduledVariable}
use enoki_jit.Eval.CleanUp.{
  take_output, unlink, has_callback, settle, drop_edges, release_edges, clean_up_one,
}

-- What the loop leaves of the outside references to `i`: less that of the schedule, less that of the
-- queue of side effects, and more that of the callback that waits.
abbrev pub given_back : ℕ → Bool → Bool → (ℕ → ℕ) → ℕ → ℕ
given_back i called effect ext j = if j == i then ext j + one called - (1 + one effect) else ext j

-- What is left when the schedule and the queue of side effects have given back their references.
abbrev less_held : ℕ → Bool → (ℕ → ℕ) → ℕ → ℕ
less_held i effect ext j = if j == i then ext j - (1 + one effect) else ext j

unlink-keeps :
    (sv : ScheduledVariable) (v : Variable)
    → ((unlink sv v).write_ptr ≡ v.write_ptr)
      × ((unlink sv v).ref_count ≡ v.ref_count)
      × ((unlink sv v).ref_count_se ≡ v.ref_count_se)
unfolding unlink take_output
unlink-keeps sv v =
    if_both
      (λ (x : Variable).
        (x.write_ptr ≡ v.write_ptr)
        × (x.ref_count ≡ v.ref_count)
        × (x.ref_count_se ≡ v.ref_count_se))
      (v.output_flag && v.size == sv.size) _ _ (refl, refl, refl) (refl, refl, refl)

split_at :
    (i : ℕ) (effect : Bool) (ext : ℕ → ℕ)
    → 1 + one effect ≤ ext i
    → (j edges : ℕ)
    → edges + ext j
      ≡ one (i == j) + ((if effect then one (i == j) else 0) + (edges + less_held i effect ext j))
split_at i true ext h j edges = ground arith
split_at i false ext h j edges = ground arith

settle_count :
    (called : Bool) (v : Variable)
    → v.ref_count + 1 < 2 ^ 32
    → (settle called v).ref_count ≡ v.ref_count + one called
settle_count true v h = omega (arith, h)
settle_count false v h = omega arith

module _ {L : RobinMap VariableKey ℕ} where
  -- Giving back one reference, also where the index is 0.
  given-Balanced :
      (a : ℕ) (ext ext_se : ℕ → ℕ) (s : State L)
      → Balanced s (λ j. one (a == j) + ext j) ext_se
      → (s' : State L) × (jitc_var_dec_ref s a ≡ ok s') × Balanced s' ext ext_se
  unfolding jitc_var_dec_ref
  given-Balanced a ext ext_se s b = elim (Bool-cases (a == 0)) [
    | inl e ↦ (s, if_true _ _ e, Balanced-congr s _ _ _ _ (λ j n. ground arith) (λ j n. refl) b)
    | inr e ↦
        let (s', run, c) =
          jitc_var_dec_ref-Balanced (λ j. one (a == j) + ext j) ext_se s b a (ground arith)
            (ground arith) in
        (s', run, Balanced-congr s' _ _ _ _ (λ j n. ground arith) (λ j n. refl) c)
  ]

  drop_edges-Balanced :
      (d : Deps) (ext ext_se : ℕ → ℕ) (s : State L)
      → Balanced s (λ j. occ j d + ext j) ext_se
      → (s' : State L) × (drop_edges d s ≡ ok s') × Balanced s' ext ext_se
  unfolding drop_edges
  drop_edges-Balanced d ext ext_se s b =
      let f3 : ℕ → ℕ = λ j. one (d.d3 == j) + ext j in
      let f2 : ℕ → ℕ = λ j. one (d.d2 == j) + f3 j in
      let f1 : ℕ → ℕ = λ j. one (d.d1 == j) + f2 j in
      let (s0, r0, c0) =
        given-Balanced d.d0 f1 ext_se s
          (Balanced-congr s _ _ _ _ (λ j n. omega arith) (λ j n. refl) b) in
      let (s1, r1, c1) = given-Balanced d.d1 f2 ext_se s0 c0 in
      let (s2, r2, c2) = given-Balanced d.d2 f3 ext_se s1 c1 in
      let (s3, r3, c3) = given-Balanced d.d3 ext ext_se s2 c2 in (s3, rw (r0, r1, r2) r3, c3)

  -- A variable in use is replaced by one without edges.
  unlinked-Balanced :
      (ext ext_se : ℕ → ℕ) (s : State L) (i : ℕ) (v w : Variable)
      → Balanced s ext ext_se
      → get_elem? s.variables i ≡ some v
      → is_unused v ≡ false
      → v.write_ptr ≡ false
      → w.write_ptr ≡ false
      → w.dep ≡ no_deps
      → w.ref_count ≡ v.ref_count
      → w.ref_count_se ≡ v.ref_count_se
      → Balanced (put_var s i w) (λ j. occ j v.dep + ext j) ext_se
  unlinked-Balanced ext ext_se s i v w b here u p q d r r_se =
      let used : is_unused w ≡ false = ground (arith, r, r_se) in
      record {
        refs = λ j n.
            let none_left : occ j w.dep ≡ 0 = ap (occ j) d ∙ ground arith in
            let weight : if_used (refs_of j) w ≡ 0 =
              if_false _ _ used ∙ if_false _ _ q ∙ none_left in
            let before : if_used (refs_of j) v ≡ occ j v.dep = if_false _ _ u ∙ if_false _ _ p in
            ground (
              arith,
              b.refs j n,
              weight,
              before,
              r,
              at-set (λ x. x.ref_count) s.variables i j v w here,
              total-set (if_used (refs_of j)) s.variables i v w here,
            );
        se_refs = λ j n.
            let weight : if_used (se_refs_of j) w ≡ 0 = if_false _ _ used ∙ if_false _ _ q in
            let before : if_used (se_refs_of j) v ≡ 0 = if_false _ _ u ∙ if_false _ _ p in
            ground (
              arith,
              b.se_refs j n,
              weight,
              before,
              r_se,
              at-set (λ x. x.ref_count_se) s.variables i j v w here,
              total-set (if_used (se_refs_of j)) s.variables i v w here,
            );
        unused = tt;
      }

  -- A variable in use gains `k` outside references and keeps its edges.
  raised-Balanced :
      (k : ℕ) (ext ext_se : ℕ → ℕ) (s : State L) (i : ℕ) (v w : Variable)
      → Balanced s ext ext_se
      → get_elem? s.variables i ≡ some v
      → is_unused v ≡ false
      → w.write_ptr ≡ v.write_ptr
      → w.dep ≡ v.dep
      → w.ref_count ≡ v.ref_count + k
      → w.ref_count_se ≡ v.ref_count_se
      → Balanced (put_var s i w) (λ j. if j == i then ext j + k else ext j) ext_se
  raised-Balanced k ext ext_se s i v w b here u q d r r_se =
      let used : is_unused w ≡ false = ground (arith, r, r_se) in
      record {
        refs = λ j n.
            let edges : refs_of j w ≡ refs_of j v =
              ap (λ c. if c then 0 else occ j w.dep) q
              ∙ ap (λ x. if v.write_ptr then 0 else occ j x) d in
            let weight : if_used (refs_of j) w ≡ if_used (refs_of j) v =
              if_false _ _ used ∙ edges ∙ sym (if_false _ _ u) in
            ground (
              arith,
              b.refs j n,
              weight,
              r,
              at-set (λ x. x.ref_count) s.variables i j v w here,
              total-set (if_used (refs_of j)) s.variables i v w here,
            );
        se_refs = λ j n.
            let edges : se_refs_of j w ≡ se_refs_of j v =
              ap (λ c. if c then one (w.dep.d3 == j) else 0) q
              ∙ ap (λ x. if v.write_ptr then one (x.d3 == j) else 0) d in
            let weight : if_used (se_refs_of j) w ≡ if_used (se_refs_of j) v =
              if_false _ _ used ∙ edges ∙ sym (if_false _ _ u) in
            ground (
              arith,
              b.se_refs j n,
              weight,
              r_se,
              at-set (λ x. x.ref_count_se) s.variables i j v w here,
              total-set (if_used (se_refs_of j)) s.variables i v w here,
            );
        unused = tt;
      }

  lvn_drop-variables :
      (s : State L) (i : ℕ) (v : Variable) → (jitc_lvn_drop s i v).variables ≡ s.variables
  unfolding jitc_lvn_drop
  lvn_drop-variables s i v = elim (Option-cases (L.find s.lvn_map (variable_key v))) [
    | inl e ↦ ground (arith, e)
    | inr (j, e) ↦ elim (Bool-cases (j == i)) [
      | inl q ↦ ground (arith, e, q)
      | inr q ↦ ground (arith, e, q)
    ]
  ]

  maybe_given-Balanced :
      (c : Bool) (a : ℕ) (ext ext_se : ℕ → ℕ) (s : State L)
      → Balanced s (λ j. (if c then one (a == j) else 0) + ext j) ext_se
      → (s' : State L) × ((if c then jitc_var_dec_ref s a else ok s) ≡ ok s')
        × Balanced s' ext ext_se
  maybe_given-Balanced true a ext ext_se s b = given-Balanced a ext ext_se s b
  maybe_given-Balanced false a ext ext_se s b =
      (s, refl, Balanced-congr s _ _ _ _ (λ j n. omega arith) (λ j n. refl) b)

  release_edges-Balanced :
      (ext ext_se : ℕ → ℕ) (s : State L) (sv : ScheduledVariable) (v : Variable)
      → Balanced s ext ext_se
      → get_elem? s.variables sv.index ≡ some v
      → sv.index ≢ 0
      → is_unused v ≡ false
      → v.write_ptr ≡ false
      → is_literal v.kind ≡ false
      → 1 + one v.side_effect ≤ ext sv.index
      → (s' : State L) × (release_edges sv v s ≡ ok s')
        × Balanced s' (less_held sv.index v.side_effect ext) ext_se
        × Holds s' sv.index (unlink sv v)
  unfolding release_edges unlink take_output
  release_edges-Balanced ext ext_se s sv v b here n u p lit held =
      let i = sv.index in
      let w = unlink sv v in
      let dropped = jitc_lvn_drop s i v in
      let same = lvn_drop-variables s i v in
      let b0 : Balanced dropped ext ext_se =
        subst (λ vs. Counts vs ext ext_se [] zeros zeros) (sym same) b in
      let there : get_elem? dropped.variables i ≡ some v = ap (λ vs. get_elem? vs i) same ∙ here in
      let kept : (w.write_ptr ≡ v.write_ptr)
          × (w.ref_count ≡ v.ref_count)
          × (w.ref_count_se ≡ v.ref_count_se) =
        unlink-keeps sv v in
      let b1 =
        unlinked-Balanced ext ext_se dropped i v w b0 there u p (kept.0 ∙ p) refl kept.1 kept.2 in
      let f2 : ℕ → ℕ = λ j. occ j v.dep + less_held i v.side_effect ext j in
      let f1 : ℕ → ℕ = λ j. (if v.side_effect then one (i == j) else 0) + f2 j in
      let (s1, r1, c1) = given-Balanced i f1 ext_se (put_var dropped i w) (
        Balanced-congr (put_var dropped i w) _ _ _ _
          (λ j z. split_at i v.side_effect ext held j (occ j v.dep)) (λ j z. refl) b1) in
      let (s2, r2, c2) = maybe_given-Balanced v.side_effect i f2 ext_se s1 c1 in
      let (s3, r3, c3) = drop_edges-Balanced v.dep (less_held i v.side_effect ext) ext_se s2 c2 in
      let now : get_elem? (put_var dropped i w).variables i ≡ some w =
        ground (
          arith,
          get_elem?-set dropped.variables i i w,
          get_elem?-lt dropped.variables i v there,
        ) in
      (
        s3,
        if_false _ _ lit ∙ rw (r1, r2) r3,
        c3,
        released-Holds v.dep v.side_effect i w (put_var dropped i w) s1 s2 s3 r1 r2 r3 now,
      )

  -- In a balanced state, cleaning up one scheduled variable that is neither a literal nor a pointer for
  -- writing, whose count does not overflow and on which the schedule (and, for a side effect, its
  -- queue) holds a reference, succeeds and leaves the counts accounted for: the schedule gives back its
  -- reference, a side effect that of its queue, a callback takes one. The register index is 0 and the
  -- side effect done; an output or a side effect has no operands any more, and an output of the
  -- scheduled size is evaluated and holds the computed data.
  pub clean_up_one-Balanced :
      (ext ext_se : ℕ → ℕ) (s : State L) (sv : ScheduledVariable) (callbacks : List ℕ)
      (v : Variable) (called : Bool)
      → Balanced s ext ext_se
      → sv.index ≢ 0
      → get_elem? s.variables sv.index ≡ some v
      → has_callback s v ≡ ok called
      → v.write_ptr ≡ false
      → is_literal v.kind ≡ false
      → v.ref_count + 1 < 2 ^ 32
      → 1 + one v.side_effect ≤ ext sv.index
      → (s' : State L) × (clean_up_one sv callbacks s
          ≡ ok ((if called then callbacks ++ sv.index ∷ [] else callbacks), s'))
        × Balanced s' (given_back sv.index called v.side_effect ext) ext_se
        × Cleans sv v s'
  unfolding clean_up_one
  clean_up_one-Balanced ext ext_se s sv callbacks v called b n here extra p lit small held =
      let i = sv.index in
      let u : is_unused v ≡ false = ground (arith, b.refs i n, here, held) in
      let found = jitc_var_used ext ext_se s b i v n here u in
      let w = settle called v in
      let count = settle_count called v small in
      let raised : ℕ → ℕ = λ j. if j == i then ext j + one called else ext j in
      let b0 : Balanced (put_var s i w) raised ext_se =
        raised-Balanced (one called) ext ext_se s i v w b here u refl refl count refl in
      let there : get_elem? (set s.variables i w) i ≡ some w =
        ground (arith, get_elem?-set s.variables i i w, get_elem?-lt s.variables i v here) in
      let used : is_unused w ≡ false = ground (arith, u, count) in
      let left : (j : ℕ)
          → j ≢ 0
          → less_held i v.side_effect raised j ≡ given_back i called v.side_effect ext j =
        λ j z. ground arith in
      let room : 1 + one v.side_effect ≤ raised i = ground (arith, held) in
      elim (Bool-cases (v.output_flag || v.side_effect)) [
        | inl e ↦
            let (s1, run, c, h) =
              release_edges-Balanced raised ext_se (put_var s i w) sv w b0 there n used p lit
                room in
            (
              s1,
              rw (found, extra, e, run) refl,
              Balanced-congr s1 _ _ _ _ left (λ j z. refl) c,
              unlink-Cleans sv called v s1 e h,
            )
        | inr e ↦
            let plain : v.side_effect ≡ false = ground arith in
            let (s1, run, c) =
              given-Balanced i (given_back i called v.side_effect ext) ext_se (put_var s i w) (
                Balanced-congr (put_var s i w) _ _ _ _ (λ j z. ground (arith, plain, held))
                  (λ j z. refl) b0) in
            (
              s1,
              rw (found, extra, e, run) refl,
              c,
              settle-Cleans sv called v s1 e (given-Holds i w (put_var s i w) s1 run there),
            )
      ]
