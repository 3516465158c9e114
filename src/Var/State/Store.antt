-- ===== src/Var/State/Store.antt =====
-- src/var.cpp: the free lists and the map of value numbering while variables wait to be freed.
pub mod Release
pub mod Loop
use enoki_jit.Prelude.PriorityQueue.{Ascends}
use enoki_jit.Prelude.{
  ℕ, ◌+◌, ◌≤◌, ◌<◌, Bool, true, false, ◌≡◌, refl, sym, ap, subst, ◌∙◌, ◌≢◌, ◌⊎◌, inl, inr, List, [],
  ◌∷◌, Option, some, length, get_elem?, set, contains, ◌==◌, if◌then◌else◌, arith, Bool-cases,
  get_elem?-set, get_elem?-lt, length-set,
}
use enoki_jit.RobinMap.{RobinMap}
use enoki_jit.Types.Kind.{is_evaluated}
use enoki_jit.Var.Key.{Variable, VariableKey, variable_key}
use enoki_jit.Var.Key.Injective.{Fits, counted-Fits, counted-key}
use enoki_jit.Var.State.{State, is_unused, put_var}
use enoki_jit.Var.State.Refs.{one}

-- How often `j` waits in the list.
abbrev pub times : List ℕ → ℕ → ℕ
times [] j = 0
times (p ∷ ps) j = one (p == j) + times ps j

module _ {L : RobinMap VariableKey ℕ} where
  -- The variable at `i` is in use or waits, is not evaluated and has the given key.
  pub record Points (s : State L) (pend : ℕ → ℕ) (key : VariableKey) (i : ℕ) : Type 0 where
    pub nonzero : i ≢ 0
    pub entry : Variable
    pub here : get_elem? s.variables i ≡ some entry
    pub active : (is_unused entry ≡ true) → pend i ≡ 1
    pub same_key : variable_key entry ≡ key
    pub traced : is_evaluated entry.kind ≡ false
    pub fits : Fits entry

  -- `pend` says which variables wait to be freed.
  pub record Store (s : State L) (pend : ℕ → ℕ) : Type 0 where
    pub sentinel : 0 < length s.variables
    pub ascends : Ascends 0 s.unused_variables
    pub entries :
        (i : ℕ)
        → contains s.unused_variables i ≡ true
        → (i ≢ 0) × ((u : Variable) × (get_elem? s.variables i ≡ some u) × (is_unused u ≡ true))
    pub idle :
        (i : ℕ)
        → pend i ≢ 0
        → (i ≢ 0)
          × (pend i ≡ 1)
          × (contains s.unused_variables i ≡ false)
          × ((u : Variable) × (get_elem? s.variables i ≡ some u) × (is_unused u ≡ true))
    pub extras : (e : ℕ) → contains s.unused_extra e ≡ true → e < length s.extra
    pub owned :
        (i : ℕ) (x : Variable)
        → get_elem? s.variables i ≡ some x
        → (is_unused x ≡ true → pend i ≡ 1)
        → x.extra ≢ 0
        → x.extra < length s.extra
    pub found : (key : VariableKey) (i : ℕ) → L.find s.lvn_map key ≡ some i → Points s pend key i

  pub Store-congr : (s : State L) (f g : ℕ → ℕ) → ((j : ℕ) → f j ≡ g j) → Store s f → Store s g
  Store-congr s f g e st = record {
    sentinel = st.sentinel;
    ascends = st.ascends;
    entries = st.entries;
    idle = λ i n. let (a, b, c, d) = st.idle i (rw (e i) n) in (a, rw⁻¹ (e i) b, c, d);
    extras = st.extras;
    owned = λ i x h a z. st.owned i x h (λ u. rw (e i) (a u)) z;
    found = λ key i h.
        let p = st.found key i h in
        record {
          nonzero = p.nonzero;
          entry = p.entry;
          here = p.here;
          active = λ u. rw⁻¹ (e i) (p.active u);
          same_key = p.same_key;
          traced = p.traced;
          fits = p.fits;
        };
  }

  -- The variable at `i`, which is in use, changes in its counts only; if it loses the last, it waits.
  module _ (s : State L) (pend : ℕ → ℕ) (st : Store s pend) (i : ℕ) (v : Variable) (n : i ≢ 0)
      (here : get_elem? s.variables i ≡ some v) (used : is_unused v ≡ false) (a b : ℕ) where
    abbrev w : Variable
    w = record v { ref_count = a; ref_count_se = b }

    abbrev pub pend_more : ℕ → ℕ
    pend_more j = (if is_unused w then one (i == j) else 0) + pend j

    none_pending : pend i ≡ 0
    none_pending = elim (Bool-cases (pend i == 0)) [
      | inl e ↦ ground arith
      | inr e ↦
          let (p, q, r, u) = st.idle i (ground arith) in let (x, h, z) = u in absurd (ground arith)
    ]

    not_free : contains s.unused_variables i ≡ false
    not_free = elim (Bool-cases (contains s.unused_variables i)) [
      | inr e ↦ e
      | inl e ↦ let (p, u) = st.entries i e in let (x, h, z) = u in absurd (ground arith)
    ]

    counted-Points :
        (key : VariableKey) (j : ℕ) → Points s pend key j → Points (put_var s i w) pend_more key j
    counted-Points key j p = elim (Bool-cases (j == i)) [
      | inr e ↦ record {
        nonzero = p.nonzero;
        entry = p.entry;
        here = ground (arith, get_elem?-set s.variables i j w, p.here);
        active = λ u. ground (arith, p.active u);
        same_key = p.same_key;
        traced = p.traced;
        fits = p.fits;
      }
      | inl e ↦
          let same : p.entry ≡ v = ground (arith, p.here) in
          record {
            nonzero = p.nonzero;
            entry = w;
            here =
                ground (arith, get_elem?-set s.variables i j w, get_elem?-lt s.variables i v here);
            active = λ u. ground (arith, none_pending, u);
            same_key = counted-key v a b ∙ ap variable_key (sym same) ∙ p.same_key;
            traced = subst (λ (x : Variable). is_evaluated x.kind ≡ false) same p.traced;
            fits = counted-Fits v a b (subst Fits same p.fits);
          }
    ]

    pub counted-Store : Store (put_var s i w) pend_more
    counted-Store = record {
      sentinel = rw length-set st.sentinel;
      ascends = st.ascends;
      entries = λ j h.
          let (z, u) = st.entries j h in
          let (x, g, q) = u in
          (z, (x, ground (arith, get_elem?-set s.variables i j w, g, not_free, h), q));
      idle = λ j h. elim (Bool-cases (j == i)) [
        | inl e ↦
            let same : j ≡ i = ground arith in
            (
              rw same n,
              ground (arith, none_pending),
              rw same not_free,
              (
                w,
                ground (arith, get_elem?-set s.variables i j w, get_elem?-lt s.variables i v here),
                ground (arith, none_pending),
              ),
            )
        | inr e ↦
            let (p, q, r, u) = st.idle j (ground arith) in
            let (x, g, z) = u in
            (p, ground arith, r, (x, ground (arith, get_elem?-set s.variables i j w), z))
      ];
      extras = st.extras;
      owned = λ j x h act z. elim (Bool-cases (j == i)) [
        | inl e ↦
            let same : x ≡ w =
              ground (arith, get_elem?-set s.variables i j w, get_elem?-lt s.variables i v here) in
            rw same (
              st.owned i v here (λ u. absurd (ground arith))
                (subst (λ (y : Variable). y.extra ≢ 0) same z))
        | inr e ↦
            st.owned j x (ground (arith, get_elem?-set s.variables i j w))
              (λ u. ground (arith, act u)) z
      ];
      found = λ key j h. counted-Points key j (st.found key j h);
    }
