-- ===== src/Var/State/Frees.antt =====
-- src/var.cpp: what `jitc_var_free` does with a variable that has lost its last reference.
pub mod Loop
use enoki_jit.Prelude.PriorityQueue.{pq_push, pq_push-contains}
use enoki_jit.Prelude.{
  ℕ, ◌+◌, ◌%◌, ◌^◌, Bool, true, false, ◌≡◌, refl, sym, ap, ◌∙◌, ◌≢◌, inl, inr, List, [], ◌∷◌,
  Option, none, some, get_elem?, set, contains, ◌==◌, if◌then◌else◌, arith, Bool-cases,
  Option-cases, get_elem?-set, get_elem?-lt, subst,
}
use enoki_jit.RobinMap.{RobinMap}
use enoki_jit.Types.Kind.{is_evaluated}
use enoki_jit.Var.Key.{Variable, VariableKey, variable_key}
use enoki_jit.Var.State.{State, is_unused, put_var, jitc_lvn_drop}
use enoki_jit.Var.State.Free.{release}
use enoki_jit.Var.State.Refs.{one}
use enoki_jit.Var.State.Store.{times}
use enoki_jit.Var.State.Store.Release.{
  bumped, release-variables, release-unused_variables, release-unused_extra, release-lvn_map,
}

-- `w` is `v` up to its counts of references and its counter of generations.
abbrev pub Same : Variable → Variable → Type 0
Same v w =
    w ≡ record v { ref_count = w.ref_count; ref_count_se = w.ref_count_se; counter = w.counter }

pub Same-trans : (u v w : Variable) → Same u v → Same v w → Same u w
Same-trans u v w p q =
    q
    ∙ ap
        (λ (x : Variable). record x {
          ref_count = w.ref_count;
          ref_count_se = w.ref_count_se;
          counter = w.counter;
        })
        p

Same-key : (v w : Variable) → Same v w → variable_key w ≡ variable_key v
unfolding variable_key
Same-key v w p = ap variable_key p

-- The variable `v` at `i` is freed: its index can be used again, an evaluated one has given its data to
-- `jitc_free` unless that is to stay, any other is not found any more by its key, and its extra record
-- can be used again.
module _ {L : RobinMap VariableKey ℕ} where
  pub record Recycled (s : State L) (i : ℕ) (v : Variable) : Type 0 where
    pub listed : contains s.unused_variables i ≡ true
    pub memory :
        is_evaluated v.kind ≡ true → v.retain_data ≡ false → contains s.released v.literal ≡ true
    pub forgotten : is_evaluated v.kind ≡ false → L.find s.lvn_map (variable_key v) ≢ some i
    pub extra : v.extra ≢ 0 → contains s.unused_extra v.extra ≡ true

  -- From `s` to `t`, each variable stays as it is but for its counts, and each that loses its last
  -- reference is freed, or waits for that as often as `pend` says.
  pub record Frees (pend : ℕ → ℕ) (s t : State L) : Type 0 where
    pub kept :
        (i : ℕ) (v : Variable)
        → get_elem? s.variables i ≡ some v
        → (w : Variable) × (get_elem? t.variables i ≡ some w) × Same v w
    pub freed :
        (i : ℕ) (v w : Variable)
        → get_elem? s.variables i ≡ some v
        → is_unused v ≡ false
        → get_elem? t.variables i ≡ some w
        → is_unused w ≡ true
        → pend i ≡ 0
        → Recycled t i v

  pub Frees-congr :
      (f g : ℕ → ℕ) (s t : State L) → ((j : ℕ) → f j ≡ g j) → Frees f s t → Frees g s t
  Frees-congr f g s t e p = record {
    kept = p.kept;
    freed = λ i v w a b c d z. p.freed i v w a b c d (e i ∙ z);
  }

  -- At the start no variable waits.
  pub start-Frees : (pend : ℕ → ℕ) (s : State L) → Frees pend s s
  start-Frees pend s = record {
    kept = λ i v h. (v, h, refl);
    freed = λ i v w a b c d z. absurd (ground arith);
  }

  -- The counts of one variable change; if it loses the last reference, it waits.
  pub counted-Frees :
      (pend : ℕ → ℕ) (s t : State L) (a : ℕ) (x : Variable) (n m : ℕ)
      → Frees pend s t
      → get_elem? t.variables a ≡ some x
      → let y : Variable = record x { ref_count = n; ref_count_se = m } in
        Frees (λ j. (if is_unused y then one (a == j) else 0) + pend j) s (put_var t a y)
  counted-Frees pend s t a x n m p here =
      let y : Variable = record x { ref_count = n; ref_count_se = m } in
      record {
        kept = λ i v h.
            let (w, g, e) = p.kept i v h in
            elim (Bool-cases (i == a)) [
              | inl q ↦
                  let same : w ≡ x = ground (arith, g, here) in
                  (
                    y,
                    ground
                        (arith, get_elem?-set t.variables a i y, get_elem?-lt t.variables a x here),
                    Same-trans v x y (subst (Same v) same e) refl,
                  )
              | inr q ↦ (w, ground (arith, get_elem?-set t.variables a i y, g), e)
            ];
        freed = λ i v w h u g d z. elim (Bool-cases (i == a)) [
          | inl q ↦
              let there : y ≡ w =
                ground
                  (arith, get_elem?-set t.variables a i y, get_elem?-lt t.variables a x here, g) in
              let gone : is_unused y ≡ true = ap is_unused there ∙ d in
              absurd (ground (arith, gone, z, q))
          | inr q ↦
              let old =
                p.freed i v w h u (ground (arith, get_elem?-set t.variables a i y, g)) d
                  (omega (arith, z)) in
              record {
                listed = old.listed;
                memory = old.memory;
                forgotten = old.forgotten;
                extra = old.extra;
              }
        ];
      }

  module _ (t : State L) (a : ℕ) (x : Variable) where
    lvn_drop-forgets : L.find (jitc_lvn_drop t a x).lvn_map (variable_key x) ≢ some a
    unfolding jitc_lvn_drop
    lvn_drop-forgets h = elim (Option-cases (L.find t.lvn_map (variable_key x))) [
      | inl e ↦ ground arith
      | inr (k, e) ↦ ground (
        arith,
        L.find-erase t.lvn_map (variable_key x) (variable_key x),
        L.beq_iff (variable_key x) (variable_key x),
      )
    ]

    lvn_drop-shrinks :
        (key : VariableKey) (j : ℕ)
        → L.find (jitc_lvn_drop t a x).lvn_map key ≡ some j
        → L.find t.lvn_map key ≡ some j
    unfolding jitc_lvn_drop
    lvn_drop-shrinks key j h = elim (Option-cases (L.find t.lvn_map (variable_key x))) [
      | inl e ↦ ground arith
      | inr (k, e) ↦ ground (arith, L.find-erase t.lvn_map (variable_key x) key)
    ]

    release-released : (release t a x).released ≡ (
        if is_evaluated x.kind
        then (if x.retain_data then t.released else x.literal ∷ t.released)
        else t.released)
    unfolding release
    release-released = ground arith

    -- What is freed already stays so.
    release-Recycled : (i : ℕ) (v : Variable) → Recycled t i v → Recycled (release t a x) i v
    release-Recycled i v r = record {
      listed = ground (
        arith,
        release-unused_variables t a x,
        pq_push-contains a i t.unused_variables,
        r.listed,
      );
      memory = λ e k. ground (arith, release-released, r.memory e k);
      forgotten = λ e h. elim (Bool-cases (is_evaluated x.kind)) [
        | inl q ↦ r.forgotten e (ground (arith, release-lvn_map t a x, h))
        | inr q ↦
            r.forgotten e
              (lvn_drop-shrinks (variable_key v) i (ground (arith, release-lvn_map t a x, h)))
      ];
      extra = λ e. ground (
        arith,
        release-unused_extra t a x,
        pq_push-contains x.extra v.extra t.unused_extra,
        r.extra e,
      );
    }

    -- The variable itself is freed.
    release_self : (v : Variable) → Same v x → Recycled (release t a x) a v
    release_self v e =
        let kind : x.kind ≡ v.kind = ap (λ (y : Variable). y.kind) e in
        let literal : x.literal ≡ v.literal = ap (λ (y : Variable). y.literal) e in
        let retain : x.retain_data ≡ v.retain_data = ap (λ (y : Variable). y.retain_data) e in
        let extra : x.extra ≡ v.extra = ap (λ (y : Variable). y.extra) e in
        record {
          listed =
              ground
                (arith, release-unused_variables t a x, pq_push-contains a a t.unused_variables);
          memory = λ q k. ground (arith, release-released, kind, literal, retain, q, k);
          forgotten = λ q h.
              let traced : is_evaluated x.kind ≡ false = ap is_evaluated kind ∙ q in
              lvn_drop-forgets (
                ap (L.find (jitc_lvn_drop t a x).lvn_map) (Same-key v x e)
                ∙ ground (arith, release-lvn_map t a x, h, traced));
          extra = λ q. ground (
            arith,
            release-unused_extra t a x,
            pq_push-contains x.extra v.extra t.unused_extra,
            extra,
            q,
          );
        }

    pub release-Frees :
        (todo : List ℕ) (s : State L)
        → Frees (times (a ∷ todo)) s t
        → get_elem? t.variables a ≡ some x
        → Frees (times todo) s (release t a x)
    release-Frees todo s p here = record {
      kept = λ i v h.
          let (w, g, e) = p.kept i v h in
          elim (Bool-cases (i == a)) [
            | inl q ↦
                let same : w ≡ x = ground (arith, g, here) in
                (
                  bumped x,
                  ap (λ vs. get_elem? vs i) (release-variables t a x)
                      ∙ ground (
                        arith,
                        get_elem?-set t.variables a i (bumped x),
                        get_elem?-lt t.variables a x here,
                      ),
                  Same-trans v x (bumped x) (subst (Same v) same e) refl,
                )
            | inr q ↦ (
              w,
              ap (λ vs. get_elem? vs i) (release-variables t a x)
                  ∙ ground (arith, get_elem?-set t.variables a i (bumped x), g),
              e,
            )
          ];
      freed = λ i v w h u g d z.
          let (y, f, e) = p.kept i v h in
          let after : get_elem? (set t.variables a (bumped x)) i ≡ some w =
            sym (ap (λ vs. get_elem? vs i) (release-variables t a x)) ∙ g in
          elim (Bool-cases (i == a)) [
            | inl q ↦
                let same : y ≡ x = ground (arith, f, here) in
                let index : a ≡ i = ground arith in
                subst (λ j. Recycled (release t a x) j v) index
                  (release_self v (subst (Same v) same e))
            | inr q ↦
                let before : get_elem? t.variables i ≡ some w =
                  ground (arith, get_elem?-set t.variables a i (bumped x), after) in
                release-Recycled i v (p.freed i v w h u before d (ground (arith, z)))
          ];
    }
