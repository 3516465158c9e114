-- ===== src/Var/State/Store/Release.antt =====
-- src/var.cpp: freeing one variable returns its index and its extra record, and forgets its value.
use enoki_jit.Prelude.PriorityQueue.{pq_push, pq_push-contains, pq_push-Ascends}
use enoki_jit.Prelude.{
  ℕ, ◌+◌, ◌%◌, ◌^◌, ◌<◌, true, false, ◌≡◌, sym, ap, ◌∙◌, ◌≢◌, inl, inr, some, length, get_elem?,
  set, contains, ◌==◌, if◌then◌else◌, arith, Bool-cases, Option-cases, get_elem?-set, get_elem?-lt,
  length-set,
}
use enoki_jit.RobinMap.{RobinMap}
use enoki_jit.Types.Kind.{is_evaluated}
use enoki_jit.Var.Key.{Variable, VariableKey, variable_key}
use enoki_jit.Var.State.{State, is_unused, jitc_lvn_drop}
use enoki_jit.Var.State.Free.{release}
use enoki_jit.Var.State.Store.{Store}

abbrev pub bumped : Variable → Variable
bumped v = record v { counter = (v.counter + 1) % 2 ^ 32 }

module _ {L : RobinMap VariableKey ℕ} (s : State L) (i : ℕ) (v : Variable) where
  pub release-variables : (release s i v).variables ≡ set s.variables i (bumped v)
  unfolding release
  release-variables = ground arith

  pub release-unused_variables : (release s i v).unused_variables ≡ pq_push i s.unused_variables
  unfolding release
  release-unused_variables = ground arith

  release-extra : (release s i v).extra ≡ s.extra
  unfolding release
  release-extra = ground arith

  pub release-unused_extra :
      (release s i v).unused_extra
      ≡ (if v.extra == 0 then s.unused_extra else pq_push v.extra s.unused_extra)
  unfolding release
  release-unused_extra = ground arith

  pub release-lvn_map :
      (release s i v).lvn_map
      ≡ (if is_evaluated v.kind then s.lvn_map else (jitc_lvn_drop s i v).lvn_map)
  unfolding release
  release-lvn_map = ground arith

  -- The value is forgotten, and every other value is still found.
  find-jitc_lvn_drop :
      (key : VariableKey) (j : ℕ)
      → (L.find s.lvn_map key ≡ some i → variable_key v ≡ key)
      → L.find (jitc_lvn_drop s i v).lvn_map key ≡ some j
      → (L.find s.lvn_map key ≡ some j) × (j ≢ i)
  unfolding jitc_lvn_drop
  find-jitc_lvn_drop key j own h = elim (Option-cases (L.find s.lvn_map (variable_key v))) [
    | inl e ↦ ground arith
    | inr (k, e) ↦
        ground (arith, L.find-erase s.lvn_map (variable_key v) key, L.beq_iff key (variable_key v))
  ]

  module _ (pend : ℕ → ℕ) (st : Store s pend) (here : get_elem? s.variables i ≡ some v)
      (waits : pend i ≡ 1) where
    abbrev pub pend_less : ℕ → ℕ
    pend_less j = if j == i then 0 else pend j

    still_found :
        (key : VariableKey) (j : ℕ)
        → L.find (release s i v).lvn_map key ≡ some j
        → (L.find s.lvn_map key ≡ some j) × (j ≢ i)
    still_found key j h =
        let own : L.find s.lvn_map key ≡ some i → variable_key v ≡ key = λ g.
          let p = st.found key i g in
          let same : p.entry ≡ v = ground (arith, p.here) in
          ap variable_key (sym same) ∙ p.same_key in
        elim (Bool-cases (is_evaluated v.kind)) [
          | inr e ↦ find-jitc_lvn_drop key j own (ground (arith, release-lvn_map))
          | inl e ↦
              let old : L.find s.lvn_map key ≡ some j = ground (arith, release-lvn_map) in
              (old, λ d. let p = st.found key j old in ground (arith, p.here, p.traced))
        ]

    unfree : contains s.unused_variables i ≡ false
    unfree = let (a, b, c, d) = st.idle i (ground arith) in c

    now_unused : is_unused v ≡ true
    now_unused = let (a, b, c, d) = st.idle i (ground arith) in let (u, g, z) = d in ground arith

    entry_after :
        (j : ℕ) (u : Variable)
        → get_elem? s.variables j ≡ some u
        → is_unused u ≡ true
        → (w : Variable) × (get_elem? (release s i v).variables j ≡ some w) × (is_unused w ≡ true)
    entry_after j u g z = elim (Bool-cases (j == i)) [
      | inl e ↦ (
        bumped v,
        ap (λ vs. get_elem? vs j) release-variables
            ∙ ground (
              arith,
              get_elem?-set s.variables i j (bumped v),
              get_elem?-lt s.variables i v here,
            ),
        now_unused,
      )
      | inr e ↦ (
        u,
        ap (λ vs. get_elem? vs j) release-variables
            ∙ ground (arith, get_elem?-set s.variables i j (bumped v)),
        z,
      )
    ]

    other_after :
        (j : ℕ) (u : Variable)
        → j ≢ i
        → get_elem? s.variables j ≡ some u
        → get_elem? (release s i v).variables j ≡ some u
    other_after j u n g =
        ap (λ vs. get_elem? vs j) release-variables
        ∙ ground (arith, get_elem?-set s.variables i j (bumped v))

    freed_entries :
        (j : ℕ)
        → contains (release s i v).unused_variables j ≡ true
        → (j ≢ 0)
          × ((u : Variable) × (get_elem? (release s i v).variables j ≡ some u)
              × (is_unused u ≡ true))
    freed_entries j h = elim (Bool-cases (j == i)) [
      | inl e ↦
          let (a, b, c, d) = st.idle i (ground arith) in
          (ground arith, entry_after j v (ground arith) now_unused)
      | inr e ↦
          let (a, u) =
            st.entries j
              (ground (arith, release-unused_variables, pq_push-contains i j s.unused_variables)) in
          let (x, g, z) = u in (a, entry_after j x g z)
    ]

    still_idle :
        (j : ℕ)
        → pend_less j ≢ 0
        → (j ≢ 0)
          × (pend_less j ≡ 1)
          × (contains (release s i v).unused_variables j ≡ false)
          × ((u : Variable) × (get_elem? (release s i v).variables j ≡ some u)
              × (is_unused u ≡ true))
    still_idle j h =
        let n : j ≢ i = ground arith in
        let (a, b, c, d) = st.idle j (ground arith) in
        let (x, g, z) = d in
        (
          a,
          ground arith,
          ground (arith, release-unused_variables, pq_push-contains i j s.unused_variables),
          (x, other_after j x n g, z),
        )

    freed_extras :
        (e : ℕ) → contains (release s i v).unused_extra e ≡ true → e < length (release s i v).extra
    freed_extras e h = ground (
      arith,
      release-unused_extra,
      release-extra,
      pq_push-contains v.extra e s.unused_extra,
      st.extras e,
      st.owned i v here (λ u. waits),
    )

    still_owned :
        (j : ℕ) (x : Variable)
        → get_elem? (release s i v).variables j ≡ some x
        → (is_unused x ≡ true → pend_less j ≡ 1)
        → x.extra ≢ 0
        → x.extra < length (release s i v).extra
    still_owned j x h act z = elim (Bool-cases (j == i)) [
      | inl e ↦ absurd (ground (arith, entry_after j v, now_unused, here))
      | inr e ↦
          let old : get_elem? s.variables j ≡ some x =
            ground (arith, release-variables, get_elem?-set s.variables i j (bumped v)) in
          ground (arith, release-extra, st.owned j x old (λ u. ground (arith, act u)) z)
    ]

    -- In a store that is sound but for the variables that wait, of which `i` is one, freeing `i` makes
    -- its index and its extra record available once, and no value is found at `i` any more; the store
    -- is sound but for the other variables that wait.
    pub release-Store : Store (release s i v) pend_less
    release-Store = record {
      sentinel = rw release-variables (rw length-set st.sentinel);
      ascends =
          rw release-unused_variables
            (pq_push-Ascends 0 i s.unused_variables st.ascends (omega arith) unfree);
      entries = freed_entries;
      idle = still_idle;
      extras = freed_extras;
      owned = still_owned;
      found = λ key j h.
          let (old, n) = still_found key j h in
          let p = st.found key j old in
          record {
            nonzero = p.nonzero;
            entry = p.entry;
            here = other_after j p.entry n p.here;
            active = λ u. ground (arith, p.active u);
            same_key = p.same_key;
            traced = p.traced;
            fits = p.fits;
          };
    }
