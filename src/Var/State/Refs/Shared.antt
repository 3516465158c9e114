-- ===== src/Var/State/Refs/Shared.antt =====
-- src/var.cpp: giving up references to operands that another variable in use holds as well. None of
-- them is freed.
use enoki_jit.Prelude.{
  ℕ, zero, suc, ◌+◌, ◌≤◌, ◌<◌, true, false, ◌≡◌, refl, ap, subst, ◌≢◌, ◌∙◌, inl, inr, List, [], ◌∷◌,
  some, get_elem?, ◌==◌, arith, Bool-cases, Option-cases, get_elem?-set, get_elem?-lt, if_true,
}
use enoki_jit.Prelude.Result.{ok}
use enoki_jit.RobinMap.{RobinMap}
use enoki_jit.Var.Key.{Variable, VariableKey}
use enoki_jit.Var.State.{State, is_unused, put_var}
use enoki_jit.Var.State.Free.{jitc_var_dec_ref, jitc_var_dec_ref_se}
use enoki_jit.Var.State.Refs.{one, refs_of, se_refs_of, if_used, total, Counts}
use enoki_jit.Var.State.Refs.Count.{less, less_se, keep-Counts, keep_se-Counts}
use enoki_jit.Var.State.Refs.Loop.{zeros, Balanced}
use enoki_jit.Var.State.Refs.Balance.{jitc_var_used}

weight-total :
    (w : Variable → ℕ) (vs : List Variable) (i : ℕ) (v : Variable)
    → get_elem? vs i ≡ some v
    → w v ≤ total w vs
unfolding total
weight-total w [] i v h = absurd (ground arith)
weight-total w (x ∷ vs) zero v h = ground arith
weight-total w (x ∷ vs) (suc i) v h = omega (arith, weight-total w vs i v h)

-- The two differ in their reference counts only, which have not grown, and are not 0.
pub record Lighter (x x' : Variable) : Type 0 where
  pub same : x' ≡ record x { ref_count = x'.ref_count; ref_count_se = x'.ref_count_se }
  pub fewer : x'.ref_count ≤ x.ref_count
  pub used : is_unused x' ≡ false

module _ {L : RobinMap VariableKey ℕ} where
  -- Only counts have changed, and what was in use still is.
  pub record Lightened (s s' : State L) : Type 0 where
    pub rest : s' ≡ record s { variables = s'.variables }
    pub keeps :
        (j : ℕ) (x : Variable)
        → get_elem? s.variables j ≡ some x
        → is_unused x ≡ false
        → (x' : Variable) × (get_elem? s'.variables j ≡ some x') × Lighter x x'
    pub back :
        (j : ℕ) (x' : Variable)
        → get_elem? s'.variables j ≡ some x'
        → (x : Variable) × (get_elem? s.variables j ≡ some x)
          × (x'.extra ≡ x.extra)
          × (is_unused x' ≡ is_unused x)
    pub spares :
        (j : ℕ) (x : Variable)
        → get_elem? s.variables j ≡ some x
        → is_unused x ≡ true
        → get_elem? s'.variables j ≡ some x

  pub Lightened-refl : (s : State L) → Lightened s s
  Lightened-refl s = record {
    rest = refl;
    keeps = λ j x h u. (x, h, record { same = refl; fewer = omega arith; used = u });
    back = λ j x h. (x, h, refl, refl);
    spares = λ j x h u. h;
  }

  pub Lightened-trans : (s t u : State L) → Lightened s t → Lightened t u → Lightened s u
  Lightened-trans s t u f g = record {
    rest = ground (arith, f.rest, g.rest);
    keeps = λ j x h n.
        let (y, hy, ly) = f.keeps j x h n in
        let (z, hz, lz) = g.keeps j y hy ly.used in
        (
          z,
          hz,
          record {
            same =
                lz.same
                ∙ ap
                    (λ (a : Variable). record a {
                      ref_count = z.ref_count;
                      ref_count_se = z.ref_count_se;
                    })
                    ly.same;
            fewer = omega (arith, ly.fewer, lz.fewer);
            used = lz.used;
          },
        );
    back = λ j z h.
        let (y, hy, e, a) = g.back j z h in
        let (x, hx, d, b) = f.back j y hy in (x, hx, e ∙ d, a ∙ b);
    spares = λ j x h n. g.spares j x (f.spares j x h n) n;
  }

  pub put_var-Lightened :
      (s : State L) (a : ℕ) (v w : Variable)
      → get_elem? s.variables a ≡ some v
      → is_unused v ≡ false
      → Lighter v w
      → Lightened s (put_var s a w)
  put_var-Lightened s a v w here u l = record {
    rest = refl;
    keeps = λ j x h n. elim (Bool-cases (j == a)) [
      | inl e ↦ (
        w,
        ground (arith, get_elem?-set s.variables a j w, get_elem?-lt s.variables a v),
        subst (λ (y : Variable). Lighter y w) (ground arith) l,
      )
      | inr e ↦ (
        x,
        ground (arith, get_elem?-set s.variables a j w),
        record { same = refl; fewer = omega arith; used = n },
      )
    ];
    back = λ j x h. elim (Bool-cases (j == a)) [
      | inl e ↦
          let same : x ≡ w =
            ground (arith, get_elem?-set s.variables a j w, get_elem?-lt s.variables a v) in
          (
            v,
            ground arith,
            ap (λ (y : Variable). y.extra) (same ∙ l.same),
            ground (arith, same, l.used, u),
          )
      | inr e ↦ (x, ground (arith, get_elem?-set s.variables a j w), refl, refl)
    ];
    spares = λ j x h n. ground (arith, get_elem?-set s.variables a j w);
  }

  module _ (ext ext_se : ℕ → ℕ) (s : State L) (i : ℕ) (x : Variable)
      (here : get_elem? s.variables i ≡ some x) (u : is_unused x ≡ false) (a : ℕ) where
    pub dec_ref_shared :
        Balanced s (λ j. one (a == j) + ext j) ext_se
        → 0 < refs_of a x
        → (s' : State L) × (jitc_var_dec_ref s a ≡ ok s') × Balanced s' ext ext_se × Lightened s s'
    unfolding jitc_var_dec_ref
    dec_ref_shared b p = elim (Bool-cases (a == 0)) [
      | inl z ↦ (
        s,
        if_true _ _ z,
        record { refs = λ j n. ground (arith, b.refs j n); se_refs = b.se_refs; unused = tt },
        Lightened-refl s,
      )
      | inr z ↦
          let n : a ≢ 0 = ground arith in
          elim (Option-cases (get_elem? s.variables a)) [
            | inl e ↦ absurd (ground (arith, b.refs a n))
            | inr (v, at_a) ↦
                let two : 1 < v.ref_count =
                  ground
                    (arith, b.refs a n, weight-total (if_used (refs_of a)) s.variables i x here) in
                let c : Counts s.variables ext ext_se [] (λ j. one (a == j) + 0) zeros = record {
                  refs = λ j n. ground (arith, b.refs j n);
                  se_refs = b.se_refs;
                  unused = tt;
                } in
                let still : is_unused (less v) ≡ false = ground arith in
                let was : is_unused v ≡ false = ground arith in
                (
                  put_var s a (less v),
                  ground (arith, jitc_var_used _ _ s b a v n at_a was),
                  keep-Counts s.variables ext ext_se [] zeros zeros a v at_a n c still,
                  put_var-Lightened s a v (less v) at_a was
                      (record { same = refl; fewer = omega arith; used = still }),
                )
          ]
    ]

    pub dec_ref_se_shared :
        Balanced s ext (λ j. one (a == j) + ext_se j)
        → 0 < se_refs_of a x
        → (s' : State L) × (jitc_var_dec_ref_se s a ≡ ok s')
          × Balanced s' ext ext_se
          × Lightened s s'
    unfolding jitc_var_dec_ref_se
    dec_ref_se_shared b p = elim (Bool-cases (a == 0)) [
      | inl z ↦ (
        s,
        if_true _ _ z,
        record { refs = b.refs; se_refs = λ j n. ground (arith, b.se_refs j n); unused = tt },
        Lightened-refl s,
      )
      | inr z ↦
          let n : a ≢ 0 = ground arith in
          elim (Option-cases (get_elem? s.variables a)) [
            | inl e ↦ absurd (ground (arith, b.se_refs a n))
            | inr (v, at_a) ↦
                let two : 1 < v.ref_count_se = ground (
                  arith,
                  b.se_refs a n,
                  weight-total (if_used (se_refs_of a)) s.variables i x here,
                ) in
                let c : Counts s.variables ext ext_se [] zeros (λ j. one (a == j) + 0) = record {
                  refs = b.refs;
                  se_refs = λ j n. ground (arith, b.se_refs j n);
                  unused = tt;
                } in
                let still : is_unused (less_se v) ≡ false = ground arith in
                let was : is_unused v ≡ false = ground arith in
                (
                  put_var s a (less_se v),
                  ground (arith, jitc_var_used _ _ s b a v n at_a was),
                  keep_se-Counts s.variables ext ext_se [] zeros zeros a v at_a n c still,
                  put_var-Lightened s a v (less_se v) at_a was
                      (record { same = refl; fewer = omega arith; used = still }),
                )
          ]
    ]
