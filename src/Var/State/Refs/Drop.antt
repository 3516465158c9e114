-- ===== src/Var/State/Refs/Drop.antt =====
-- src/var.cpp: giving up one reference keeps the accounts, whether or not the variable dies.
use enoki_jit.Prelude.{
  ℕ, ◌+◌, true, false, ◌≡◌, refl, ◌≢◌, inl, inr, List, ◌∷◌, some, length, get_elem?, ◌==◌,
  if◌then◌else◌, arith, Bool-cases, Option-cases, ==_ne, ==→eq, ==→ne,
}
use enoki_jit.Prelude.Result.{ok}
use enoki_jit.RobinMap.{RobinMap}
use enoki_jit.Var.Key.{Variable, VariableKey}
use enoki_jit.Var.State.{is_unused, put_var}
use enoki_jit.Var.State.Free.{live_count, Work, enlist, drop_ref, drop_ref_se}
use enoki_jit.Var.State.Refs.{one, Counts}
use enoki_jit.Var.State.Refs.Count.{
  less, less_se, counted, keep-Counts, die-Counts, live_count-keep, live_count-die, counted_se,
  keep_se-Counts, die_se-Counts, live_count-keep_se, live_count-die_se, swap-Counts, null-Counts,
  null_se-Counts,
}

-- The variables that wait to be freed, as `jitc_var_free` keeps them.
abbrev pub waiting : ℕ → List ℕ → List ℕ
waiting next todo = if next == 0 then todo else next ∷ todo

-- References in flight may be counted in another order.
pub Counts-congr :
    (vs : List Variable) (ext ext_se : ℕ → ℕ) (ps : List ℕ) (fly fly_se fly' fly_se' : ℕ → ℕ)
    → ((j : ℕ) → fly j ≡ fly' j)
    → ((j : ℕ) → fly_se j ≡ fly_se' j)
    → Counts vs ext ext_se ps fly fly_se
    → Counts vs ext ext_se ps fly' fly_se'
Counts-congr vs ext ext_se ps fly fly_se fly' fly_se' e f c = record {
  refs = λ j z. omega (arith, c.refs j z, e j);
  se_refs = λ j z. omega (arith, c.se_refs j z, f j);
  unused = c.unused;
}

module _ {L : RobinMap VariableKey ℕ} (ext ext_se : ℕ → ℕ) where
  -- What one round of the loop keeps: the accounts, and the number of variables in use or waiting.
  pub record Drops (w w' : Work L) (fly fly_se : ℕ → ℕ) : Type 0 where
    pub counts : Counts w'.state.variables ext ext_se (waiting w'.next w'.todo) fly fly_se
    pub measure :
        live_count w'.state.variables + length (waiting w'.next w'.todo)
        ≡ live_count w.state.variables + length (waiting w.next w.todo)

  module _ (fly fly_se : ℕ → ℕ) where
    enlist-Counts :
        (vs : List Variable) (i : ℕ) (w : Work L)
        → i ≢ 0
        → Counts vs ext ext_se (i ∷ waiting w.next w.todo) fly fly_se
        → Counts vs ext ext_se (waiting (enlist i w).next (enlist i w).todo) fly fly_se
    enlist-Counts vs i w n c = elim (Bool-cases (w.next == 0)) [
      | inl e ↦ rw (e, ==_ne i 0 n) (rw e at c)
      | inr e ↦ rw (e, e) (swap-Counts vs ext ext_se fly fly_se i w.next w.todo (rw e at c))
    ]

    length-enlist :
        (i : ℕ) (w : Work L)
        → i ≢ 0
        → length (waiting (enlist i w).next (enlist i w).todo) ≡ length (waiting w.next w.todo) + 1
    length-enlist i w n = ground (arith, n)

    module _ (i : ℕ) (w : Work L) (n : i ≢ 0) (v : Variable)
        (here : get_elem? w.state.variables i ≡ some v) where
      drop_kept :
          Counts w.state.variables ext ext_se
            (waiting w.next w.todo)
            (λ j. one (i == j) + fly j)
            fly_se
          → is_unused (less v) ≡ false
          → Drops w (record w { state = put_var w.state i (less v) }) fly fly_se
      drop_kept c u = record {
        counts = keep-Counts _ ext ext_se _ fly fly_se i v here n c u;
        measure = omega (arith, live_count-keep _ ext ext_se _ fly fly_se i v here n c u);
      }

      drop_died :
          Counts w.state.variables ext ext_se
            (waiting w.next w.todo)
            (λ j. one (i == j) + fly j)
            fly_se
          → is_unused (less v) ≡ true
          → Drops w (enlist i (record w { state = put_var w.state i (less v) })) fly fly_se
      drop_died c u = record {
        counts = enlist-Counts _ i w n (die-Counts _ ext ext_se _ fly fly_se i v here n c u);
        measure =
            omega
              (arith, length-enlist i w n, live_count-die _ ext ext_se _ fly fly_se i v here n c u);
      }

  -- Giving up a reference that is accounted for cannot fail, and the accounts stay right.
  pub drop_ref-Drops :
      (i : ℕ) (w : Work L) (fly fly_se : ℕ → ℕ)
      → Counts w.state.variables ext ext_se
          (waiting w.next w.todo)
          (λ j. one (i == j) + fly j)
          fly_se
      → (w' : Work L) × (drop_ref i w ≡ ok w') × Drops w w' fly fly_se
  unfolding drop_ref
  drop_ref-Drops i w fly fly_se c = elim (Bool-cases (i == 0)) [
    | inl z ↦ (w, rw z, record { counts = null-Counts i (==→eq i 0 z) c; measure = refl })
    | inr z ↦
        let n = ==→ne i 0 z in
        elim (Option-cases (get_elem? w.state.variables i)) [
          | inl e ↦ absurd (ground (arith, c.refs i n))
          | inr (v, here) ↦
              let pos = counted _ ext ext_se _ fly fly_se i v here n c in
              elim (Bool-cases (is_unused (less v))) [
                | inl u ↦ (_, ground arith, drop_died fly fly_se i w n v here c u)
                | inr u ↦ (_, ground arith, drop_kept fly fly_se i w n v here c u)
              ]
        ]
  ]

  module _ (fly fly_se : ℕ → ℕ) (i : ℕ) (w : Work L) (n : i ≢ 0) (idle : w.next ≡ 0) (v : Variable)
      (here : get_elem? w.state.variables i ≡ some v)
      (c : Counts w.state.variables ext ext_se
        (waiting w.next w.todo)
        fly
        (λ j. one (i == j) + fly_se j)) where
    drop_se_kept :
        is_unused (less_se v) ≡ false
        → Drops w (record w { state = put_var w.state i (less_se v) }) fly fly_se
    drop_se_kept u = record {
      counts = keep_se-Counts _ ext ext_se _ fly fly_se i v here n c u;
      measure = omega (arith, live_count-keep_se _ ext ext_se _ fly fly_se i v here n c u);
    }

    drop_se_died :
        is_unused (less_se v) ≡ true
        → Drops w (record w { next = i; state = put_var w.state i (less_se v) }) fly fly_se
    drop_se_died u = record {
      counts =
          rw (==_ne i 0 n) (rw idle at (die_se-Counts _ ext ext_se _ fly fly_se i v here n c u));
      measure = ground (arith, live_count-die_se _ ext ext_se _ fly fly_se i v here n c u);
    }

  pub drop_ref_se-Drops :
      (i : ℕ) (w : Work L) (fly fly_se : ℕ → ℕ)
      → w.next ≡ 0
      → Counts w.state.variables ext ext_se
          (waiting w.next w.todo)
          fly
          (λ j. one (i == j) + fly_se j)
      → (w' : Work L) × (drop_ref_se i w ≡ ok w') × Drops w w' fly fly_se
  unfolding drop_ref_se
  drop_ref_se-Drops i w fly fly_se idle c = elim (Bool-cases (i == 0)) [
    | inl z ↦ (w, rw z, record { counts = null_se-Counts i (==→eq i 0 z) c; measure = refl })
    | inr z ↦
        let n = ==→ne i 0 z in
        elim (Option-cases (get_elem? w.state.variables i)) [
          | inl e ↦ absurd (ground (arith, c.se_refs i n))
          | inr (v, here) ↦
              let pos = counted_se _ ext ext_se _ fly fly_se i v here n c in
              elim (Bool-cases (is_unused (less_se v))) [
                | inl u ↦ (_, ground arith, drop_se_died fly fly_se i w n idle v here c u)
                | inr u ↦ (_, ground arith, drop_se_kept fly fly_se i w n idle v here c u)
              ]
        ]
  ]
