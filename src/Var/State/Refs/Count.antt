-- ===== src/Var/State/Refs/Count.antt =====
-- src/var.cpp: the accounts when one reference to a variable is given up.
use enoki_jit.Prelude.{
  ℕ, ◌+◌, ◌-◌, ◌<◌, true, false, ◌≡◌, refl, ◌≢◌, List, ◌∷◌, some, get_elem?, set, ◌==◌, arith,
}
use enoki_jit.Var.Key.{Variable}
use enoki_jit.Var.State.{is_unused}
use enoki_jit.Var.State.Free.{live_count}
use enoki_jit.Var.State.Refs.{
  one, refs_of, se_refs_of, if_used, Counts, total-set, live_count-set, at-set, sum_at-set,
  AllUnused-set,
}

-- A variable with one reference less, or one side-effect reference less.
abbrev pub less : Variable → Variable
less v = record v { ref_count = v.ref_count - 1 }

abbrev pub less_se : Variable → Variable
less_se v = record v { ref_count_se = v.ref_count_se - 1 }

-- One reference to `i` less, and `i` is still in use.
module _ (vs : List Variable) (ext ext_se : ℕ → ℕ) (ps : List ℕ) (fly fly_se : ℕ → ℕ) (i : ℕ)
    (v : Variable) (here : get_elem? vs i ≡ some v) (n : i ≢ 0) where
  pub counted : Counts vs ext ext_se ps (λ j. one (i == j) + fly j) fly_se → 0 < v.ref_count
  counted c = ground (arith, c.refs i n)

  module _ (c : Counts vs ext ext_se ps (λ j. one (i == j) + fly j) fly_se) where
    pub keep-Counts :
        is_unused (less v) ≡ false → Counts (set vs i (less v)) ext ext_se ps fly fly_se
    keep-Counts u = record {
      refs = λ j z. ground (
        arith,
        counted c,
        c.refs j z,
        at-set (λ x. x.ref_count) vs i j v (less v) here,
        total-set (if_used (refs_of j)) vs i v (less v) here,
        sum_at-set (refs_of j) vs i v (less v) ps here refl,
      );
      se_refs = λ j z. ground (
        arith,
        counted c,
        c.se_refs j z,
        at-set (λ x. x.ref_count_se) vs i j v (less v) here,
        total-set (if_used (se_refs_of j)) vs i v (less v) here,
        sum_at-set (se_refs_of j) vs i v (less v) ps here refl,
      );
      unused = AllUnused-set vs i v (less v) ps here (λ e. ground (arith, counted c)) c.unused;
    }

    pub die-Counts :
        is_unused (less v) ≡ true → Counts (set vs i (less v)) ext ext_se (i ∷ ps) fly fly_se
    die-Counts u = record {
      refs = λ j z. ground (
        arith,
        counted c,
        c.refs j z,
        at-set (λ x. x.ref_count) vs i j v (less v) here,
        at-set (refs_of j) vs i i v (less v) here,
        total-set (if_used (refs_of j)) vs i v (less v) here,
        sum_at-set (refs_of j) vs i v (less v) ps here refl,
      );
      se_refs = λ j z. ground (
        arith,
        counted c,
        c.se_refs j z,
        at-set (λ x. x.ref_count_se) vs i j v (less v) here,
        at-set (se_refs_of j) vs i i v (less v) here,
        total-set (if_used (se_refs_of j)) vs i v (less v) here,
        sum_at-set (se_refs_of j) vs i v (less v) ps here refl,
      );
      unused = (
        n,
        ground (arith, at-set (λ x. one (is_unused x)) vs i i v (less v) here),
        AllUnused-set vs i v (less v) ps here (λ e. ground (arith, counted c)) c.unused,
      );
    }

    pub live_count-keep :
        is_unused (less v) ≡ false → live_count (set vs i (less v)) ≡ live_count vs
    live_count-keep u = ground (arith, counted c, live_count-set vs i v (less v) here)

    pub live_count-die :
        is_unused (less v) ≡ true → live_count (set vs i (less v)) + 1 ≡ live_count vs
    live_count-die u = ground (arith, counted c, live_count-set vs i v (less v) here)

-- One side-effect reference to `i` less, and `i` is still in use.
module _ (vs : List Variable) (ext ext_se : ℕ → ℕ) (ps : List ℕ) (fly fly_se : ℕ → ℕ) (i : ℕ)
    (v : Variable) (here : get_elem? vs i ≡ some v) (n : i ≢ 0) where
  pub counted_se : Counts vs ext ext_se ps fly (λ j. one (i == j) + fly_se j) → 0 < v.ref_count_se
  counted_se c = ground (arith, c.se_refs i n)

  module _ (c : Counts vs ext ext_se ps fly (λ j. one (i == j) + fly_se j)) where
    pub keep_se-Counts :
        is_unused (less_se v) ≡ false → Counts (set vs i (less_se v)) ext ext_se ps fly fly_se
    keep_se-Counts u = record {
      refs = λ j z. ground (
        arith,
        counted_se c,
        c.refs j z,
        at-set (λ x. x.ref_count) vs i j v (less_se v) here,
        total-set (if_used (refs_of j)) vs i v (less_se v) here,
        sum_at-set (refs_of j) vs i v (less_se v) ps here refl,
      );
      se_refs = λ j z. ground (
        arith,
        counted_se c,
        c.se_refs j z,
        at-set (λ x. x.ref_count_se) vs i j v (less_se v) here,
        total-set (if_used (se_refs_of j)) vs i v (less_se v) here,
        sum_at-set (se_refs_of j) vs i v (less_se v) ps here refl,
      );
      unused =
          AllUnused-set vs i v (less_se v) ps here (λ e. ground (arith, counted_se c)) c.unused;
    }

    pub die_se-Counts :
        is_unused (less_se v) ≡ true → Counts (set vs i (less_se v)) ext ext_se (i ∷ ps) fly fly_se
    die_se-Counts u = record {
      refs = λ j z. ground (
        arith,
        counted_se c,
        c.refs j z,
        at-set (λ x. x.ref_count) vs i j v (less_se v) here,
        at-set (refs_of j) vs i i v (less_se v) here,
        total-set (if_used (refs_of j)) vs i v (less_se v) here,
        sum_at-set (refs_of j) vs i v (less_se v) ps here refl,
      );
      se_refs = λ j z. ground (
        arith,
        counted_se c,
        c.se_refs j z,
        at-set (λ x. x.ref_count_se) vs i j v (less_se v) here,
        at-set (se_refs_of j) vs i i v (less_se v) here,
        total-set (if_used (se_refs_of j)) vs i v (less_se v) here,
        sum_at-set (se_refs_of j) vs i v (less_se v) ps here refl,
      );
      unused = (
        n,
        ground (arith, at-set (λ x. one (is_unused x)) vs i i v (less_se v) here),
        AllUnused-set vs i v (less_se v) ps here (λ e. ground (arith, counted_se c)) c.unused,
      );
    }

    pub live_count-keep_se :
        is_unused (less_se v) ≡ false → live_count (set vs i (less_se v)) ≡ live_count vs
    live_count-keep_se u = ground (arith, counted_se c, live_count-set vs i v (less_se v) here)

    pub live_count-die_se :
        is_unused (less_se v) ≡ true → live_count (set vs i (less_se v)) + 1 ≡ live_count vs
    live_count-die_se u = ground (arith, counted_se c, live_count-set vs i v (less_se v) here)

pub swap-Counts :
    (vs : List Variable) (ext ext_se fly fly_se : ℕ → ℕ) (i k : ℕ) (ps : List ℕ)
    → Counts vs ext ext_se (i ∷ k ∷ ps) fly fly_se
    → Counts vs ext ext_se (k ∷ i ∷ ps) fly fly_se
swap-Counts vs ext ext_se fly fly_se i k ps c = record {
  refs = λ j z. omega (arith, c.refs j z);
  se_refs = λ j z. omega (arith, c.se_refs j z);
  unused = let (a, b, (a', b', r)) = c.unused in (a', b', (a, b, r));
}

pub null-Counts :
    {vs : List Variable} {ext ext_se fly fly_se : ℕ → ℕ} {ps : List ℕ} (i : ℕ)
    → i ≡ 0
    → Counts vs ext ext_se ps (λ j. one (i == j) + fly j) fly_se
    → Counts vs ext ext_se ps fly fly_se
null-Counts i e c = record {
  refs = λ j z. ground (arith, c.refs j z);
  se_refs = c.se_refs;
  unused = c.unused;
}

pub null_se-Counts :
    {vs : List Variable} {ext ext_se fly fly_se : ℕ → ℕ} {ps : List ℕ} (i : ℕ)
    → i ≡ 0
    → Counts vs ext ext_se ps fly (λ j. one (i == j) + fly_se j)
    → Counts vs ext ext_se ps fly fly_se
null_se-Counts i e c = record {
  refs = c.refs;
  se_refs = λ j z. ground (arith, c.se_refs j z);
  unused = c.unused;
}
