-- ===== src/Var/State/Refs/Fill.antt =====
-- src/var.cpp: the accounts when an entry is added, and when an unused entry is filled.
use enoki_jit.Prelude.{
  ℕ, ◌+◌, true, ◌≡◌, ◌≢◌, List, [], ◌∷◌, ◌++◌, some, get_elem?, set, arith, get_elem?-append_one,
  get_elem?-none,
}
use enoki_jit.Var.Key.{Variable, zero_variable}
use enoki_jit.Var.State.{is_unused}
use enoki_jit.Var.State.Refs.{refs_of, se_refs_of, if_used, total, Counts, total-set, at-set}
use enoki_jit.Var.State.Refs.Loop.{zeros}
use enoki_jit.Var.State.Refs.Balance.{plus_at}

total-append_one :
    (w : Variable → ℕ) (vs : List Variable) (v : Variable)
    → total w (vs ++ v ∷ []) ≡ total w vs + w v
unfolding total
total-append_one w [] v = omega arith
total-append_one w (x ∷ vs) v = omega (arith, total-append_one w vs v)

-- An empty entry at the end changes no account.
pub append-Counts :
    (vs : List Variable) (ext ext_se : ℕ → ℕ)
    → Counts vs ext ext_se [] zeros zeros
    → Counts (vs ++ zero_variable ∷ []) ext ext_se [] zeros zeros
append-Counts vs ext ext_se c = record {
  refs = λ j n. ground (
    arith,
    c.refs j n,
    get_elem?-append_one vs j zero_variable,
    total-append_one (if_used (refs_of j)) vs zero_variable,
    get_elem?-none vs j,
  );
  se_refs = λ j n. ground (
    arith,
    c.se_refs j n,
    get_elem?-append_one vs j zero_variable,
    total-append_one (if_used (se_refs_of j)) vs zero_variable,
    get_elem?-none vs j,
  );
  unused = tt;
}

-- An unused entry is filled: the references that its creator held become its own, and its creator
-- holds one reference to it.
pub fill-Counts :
    (vs : List Variable) (ext ext_se : ℕ → ℕ) (i : ℕ) (u w : Variable)
    → i ≢ 0
    → get_elem? vs i ≡ some u
    → is_unused u ≡ true
    → w.ref_count ≡ 1
    → w.ref_count_se ≡ 0
    → Counts vs (λ j. ext j + refs_of j w) (λ j. ext_se j + se_refs_of j w) [] zeros zeros
    → Counts (set vs i w) (plus_at i ext) ext_se [] zeros zeros
fill-Counts vs ext ext_se i u w n here free r e c = record {
  refs = λ j z. ground (
    arith,
    c.refs j z,
    at-set (λ x. x.ref_count) vs i j u w here,
    total-set (if_used (refs_of j)) vs i u w here,
  );
  se_refs = λ j z. ground (
    arith,
    c.se_refs j z,
    at-set (λ x. x.ref_count_se) vs i j u w here,
    total-set (if_used (se_refs_of j)) vs i u w here,
  );
  unused = tt;
}
