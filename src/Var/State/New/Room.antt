-- ===== src/Var/State/New/Room.antt =====
-- src/var.cpp: `jitc_var_new` finds an index that is not in use.
use enoki_jit.Prelude.{
  ℕ, suc, ◌<◌, true, false, ◌≡◌, refl, sym, ap, subst, ◌≢◌, ◌∙◌, inl, inr, List, [], ◌∷◌, ◌++◌,
  some, length, get_elem?, contains, arith, Bool-cases, List-cases, get_elem?-lt,
  get_elem?-append_one, length-append, if_true, if_false,
}
use enoki_jit.Prelude.PriorityQueue.{Ascends, Ascends-mono, contains_below}
use enoki_jit.RobinMap.{RobinMap}
use enoki_jit.Var.Key.{Variable, VariableKey, zero_variable}
use enoki_jit.Var.State.{State, is_unused}
use enoki_jit.Var.State.New.{take_index}
use enoki_jit.Var.State.Refs.Loop.{Balanced}
use enoki_jit.Var.State.Refs.Fill.{append-Counts}

-- The free lists: index 0 exists and is kept, and what waits for reuse exists and is not in use.
pub record Reusable {L : RobinMap VariableKey ℕ} (s : State L) : Type 0 where
  pub sentinel : 0 < length s.variables
  pub ascends : Ascends 0 s.unused_variables
  pub entries :
      (i : ℕ)
      → contains s.unused_variables i ≡ true
      → (i ≢ 0) × ((u : Variable) × (get_elem? s.variables i ≡ some u) × (is_unused u ≡ true))
  pub extras : (e : ℕ) → contains s.unused_extra e ≡ true → e < length s.extra

module _ {L : RobinMap VariableKey ℕ} where
  -- What `take_index` gives: an entry that is not in use, in a state that is otherwise the same.
  pub record Room (s : State L) (i : ℕ) (s1 : State L) : Type 0 where
    pub nonzero : i ≢ 0
    pub entry : Variable
    pub here : get_elem? s1.variables i ≡ some entry
    pub free : is_unused entry ≡ true
    pub counts : (ext ext_se : ℕ → ℕ) → Balanced s ext ext_se → Balanced s1 ext ext_se
    pub grows :
        (j : ℕ) (x : Variable)
        → get_elem? s.variables j ≡ some x
        → get_elem? s1.variables j ≡ some x
    pub reusable : Reusable s1
    pub apart : contains s1.unused_variables i ≡ false
    pub lvn : s1.lvn_map ≡ s.lvn_map
    pub extra : s1.extra ≡ s.extra
    pub back :
        (j : ℕ) (x : Variable)
        → j ≢ i
        → get_elem? s1.variables j ≡ some x
        → get_elem? s.variables j ≡ some x

  grow-Room :
      (s : State L)
      → Reusable s
      → Room s (length s.variables) (record s { variables = s.variables ++ zero_variable ∷ [] })
  grow-Room s r = record {
    nonzero = ground (arith, r.sentinel);
    entry = zero_variable;
    here = ground (arith, get_elem?-append_one s.variables (length s.variables) zero_variable);
    free = refl;
    counts = λ ext ext_se b. append-Counts s.variables ext ext_se b;
    grows = λ j x h.
        ground
          (arith, get_elem?-append_one s.variables j zero_variable, get_elem?-lt s.variables j x);
    reusable = record {
      sentinel = omega (arith, length-append s.variables (zero_variable ∷ []), r.sentinel);
      ascends = r.ascends;
      entries = λ i h.
          let (n, w) = r.entries i h in
          let (u, e, f) = w in
          (
            n,
            (
              u,
              ground (
                arith,
                get_elem?-append_one s.variables i zero_variable,
                get_elem?-lt s.variables i u,
              ),
              f,
            ),
          );
      extras = r.extras;
    };
    apart = elim (Bool-cases (contains s.unused_variables (length s.variables))) [
      | inr e ↦ e
      | inl e ↦
          let (n, w) = r.entries (length s.variables) e in
          let (u, h, f) = w in
          absurd (omega (arith, get_elem?-lt s.variables (length s.variables) u h))
    ];
    lvn = refl;
    extra = refl;
    back = λ j x n h. ground (arith, get_elem?-append_one s.variables j zero_variable);
  }

  pop-Room :
      (s : State L) (i : ℕ) (rest : List ℕ)
      → Reusable s
      → s.unused_variables ≡ i ∷ rest
      → Room s i (record s { unused_variables = rest })
  pop-Room s i rest r e =
      let (lo, asc) = subst (Ascends 0) e r.ascends in
      let (n, w) = r.entries i (ground (arith, ap (λ xs. contains xs i) e)) in
      let (u, h, f) = w in
      record {
        nonzero = n;
        entry = u;
        here = h;
        free = f;
        counts = λ ext ext_se b. b;
        grows = λ j x q. q;
        reusable = record {
          sentinel = r.sentinel;
          ascends = Ascends-mono 0 (suc i) rest (omega arith) asc;
          entries = λ j q. r.entries j (ground (arith, ap (λ xs. contains xs j) e));
          extras = r.extras;
        };
        apart = contains_below (suc i) i rest asc (omega arith);
        lvn = refl;
        extra = refl;
        back = λ j x n h. h;
      }

  pub take_index-Room : (s : State L) → Reusable s → let (i, s1) = take_index s in Room s i s1
  unfolding take_index
  take_index-Room s r = elim (Bool-cases s.flags.reuse_indices) [
    | inr e ↦ subst (λ (p : ℕ × State L). Room s p.0 p.1) (sym (if_false _ _ e)) (grow-Room s r)
    | inl e ↦ elim (List-cases s.unused_variables) [
      | inl f ↦
          subst (λ (p : ℕ × State L). Room s p.0 p.1) (sym (if_true _ _ e ∙ ground arith))
            (grow-Room s r)
      | inr (i, rest, f) ↦
          subst (λ (p : ℕ × State L). Room s p.0 p.1) (sym (if_true _ _ e ∙ ground arith))
            (pop-Room s i rest r f)
    ]
  ]
