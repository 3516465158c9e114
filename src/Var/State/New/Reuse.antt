-- ===== src/Var/State/New/Reuse.antt =====
-- src/var.cpp: a value that exists already is reused, and the references that the caller took for its
-- operands are given up.
use enoki_jit.Prelude.{
  ℕ, ◌≢◌, ◌+◌, ◌<◌, false, ◌≡◌, ap, ◌∙◌, inl, inr, some, get_elem?, ◌==◌, arith, Bool-cases,
  if_true, if_false,
}
use enoki_jit.Prelude.Result.{ok, ◌>>=◌}
use enoki_jit.RobinMap.{RobinMap}
use enoki_jit.Var.Key.{Deps, Variable, VariableKey}
use enoki_jit.Var.State.{State, is_unused}
use enoki_jit.Var.State.Free.{jitc_var_dec_ref}
use enoki_jit.Var.State.New.{drop_operands}
use enoki_jit.Var.State.Refs.{one, occ, refs_of, se_refs_of}
use enoki_jit.Var.State.Refs.Loop.{Balanced}
use enoki_jit.Var.State.Refs.Shared.{Lightened, Lightened-trans, dec_ref_shared, dec_ref_se_shared}

module _ {L : RobinMap VariableKey ℕ} where
  pub Balanced-congr :
      (s : State L) (f f' g g' : ℕ → ℕ)
      → ((j : ℕ) → j ≢ 0 → f j ≡ f' j)
      → ((j : ℕ) → j ≢ 0 → g j ≡ g' j)
      → Balanced s f g
      → Balanced s f' g'
  Balanced-congr s f f' g g' p q b = record {
    refs = λ j n. ground (arith, b.refs j n, p j n);
    se_refs = λ j n. ground (arith, b.se_refs j n, q j n);
    unused = tt;
  }

  -- One of the four operands of `x`, which stands at `i`.
  operand_shared :
      (ext ext_se : ℕ → ℕ) (s : State L) (i : ℕ) (x : Variable) (d : Deps) (a : ℕ)
      → get_elem? s.variables i ≡ some x
      → is_unused x ≡ false
      → x.dep ≡ d
      → x.write_ptr ≡ false
      → 0 < occ a d
      → Balanced s (λ j. one (a == j) + ext j) ext_se
      → (s' : State L) × (jitc_var_dec_ref s a ≡ ok s')
        × Balanced s' ext ext_se
        × Lightened s s'
        × ((x' : Variable) × (get_elem? s'.variables i ≡ some x')
            × (is_unused x' ≡ false)
            × (x'.dep ≡ d)
            × (x'.write_ptr ≡ false))
  operand_shared ext ext_se s i x d a here u e w p b =
      let held : 0 < refs_of a x = rw (w, e) p in
      let (s', run, c, l) = dec_ref_shared ext ext_se s i x here u a b held in
      let (x', h, k) = l.keeps i x here u in
      (
        s',
        run,
        c,
        l,
        (
          x',
          h,
          k.used,
          ap (λ (y : Variable). y.dep) k.same ∙ e,
          ap (λ (y : Variable). y.write_ptr) k.same ∙ w,
        ),
      )

  drop_operands-run :
      (s s0 s1 s2 s3 : State L) (v : Variable)
      → v.write_ptr ≡ false
      → jitc_var_dec_ref s v.dep.d0 ≡ ok s0
      → jitc_var_dec_ref s0 v.dep.d1 ≡ ok s1
      → jitc_var_dec_ref s1 v.dep.d2 ≡ ok s2
      → jitc_var_dec_ref s2 v.dep.d3 ≡ ok s3
      → drop_operands s v ≡ ok s3
  unfolding drop_operands
  drop_operands-run s s0 s1 s2 s3 v p r0 r1 r2 r3 =
      if_false _ _ p ∙ rw (r0, ◌>>=◌, r1, ◌>>=◌, r2, ◌>>=◌) r3

  pub drop_operands_shared :
      (ext ext_se : ℕ → ℕ) (s : State L) (i : ℕ) (x v : Variable)
      → get_elem? s.variables i ≡ some x
      → is_unused x ≡ false
      → x.dep ≡ v.dep
      → x.write_ptr ≡ v.write_ptr
      → Balanced s (λ j. ext j + refs_of j v) (λ j. ext_se j + se_refs_of j v)
      → (s' : State L) × (drop_operands s v ≡ ok s') × Balanced s' ext ext_se × Lightened s s'
  unfolding drop_operands
  drop_operands_shared ext ext_se s i x v here u e w b = elim (Bool-cases v.write_ptr) [
    | inl p ↦
        let held : 0 < se_refs_of v.dep.d3 x = rw (w ∙ p, e) (ground arith) in
        let (s', run, c, l) =
          dec_ref_se_shared ext ext_se s i x here u v.dep.d3
            (Balanced-congr s _ _ _ _ (λ j n. ground arith) (λ j n. ground arith) b) held in
        (s', if_true _ _ p ∙ run, c, l)
    | inr p ↦
        let d = v.dep in
        let f3 : ℕ → ℕ = λ j. one (d.d3 == j) + ext j in
        let f2 : ℕ → ℕ = λ j. one (d.d2 == j) + f3 j in
        let f1 : ℕ → ℕ = λ j. one (d.d1 == j) + f2 j in
        let b0 : Balanced s (λ j. one (d.d0 == j) + f1 j) ext_se =
          Balanced-congr s _ _ _ _ (λ j n. ground arith) (λ j n. ground arith) b in
        let (s0, r0, c0, l0, k0) =
          operand_shared f1 ext_se s i x d d.d0 here u e (w ∙ p) (ground arith) b0 in
        let (x0, h0, u0, e0, w0) = k0 in
        let (s1, r1, c1, l1, k1) =
          operand_shared f2 ext_se s0 i x0 d d.d1 h0 u0 e0 w0 (ground arith) c0 in
        let (x1, h1, u1, e1, w1) = k1 in
        let (s2, r2, c2, l2, k2) =
          operand_shared f3 ext_se s1 i x1 d d.d2 h1 u1 e1 w1 (ground arith) c1 in
        let (x2, h2, u2, e2, w2) = k2 in
        let (s3, r3, c3, l3, k3) =
          operand_shared ext ext_se s2 i x2 d d.d3 h2 u2 e2 w2 (ground arith) c2 in
        (
          s3,
          drop_operands-run s s0 s1 s2 s3 v p r0 r1 r2 r3,
          c3,
          Lightened-trans s s1 s3 (Lightened-trans s s0 s1 l0 l1) (Lightened-trans s1 s2 s3 l2 l3),
        )
  ]
