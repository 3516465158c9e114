-- ===== src/Var/State/New/Value.antt =====
-- src/var.cpp: what `jitc_var_new` promises, whether it makes a new entry or finds an equal value.
use enoki_jit.Prelude.{
  ℕ, get_elem?-set_here, length, ◌+◌, ◌^◌, ◌<◌, Bool, true, false, ◌≡◌, refl, sym, ap, subst, ◌≢◌,
  ◌∙◌, inl, inr, some, get_elem?, contains, ◌==◌, arith, Bool-cases, Option-cases, get_elem?-set,
  get_elem?-lt, length-set, if_true, if_false,
}
use enoki_jit.Prelude.PriorityQueue.{Ascends}
use enoki_jit.Prelude.Result.{ok, ◌>>=◌}
use enoki_jit.RobinMap.{RobinMap}
use enoki_jit.Types.Kind.{is_evaluated}
use enoki_jit.Var.Key.{Variable, VariableKey, variable_key}
use enoki_jit.Var.Key.Injective.{counted-Fits, counted-key, Fits, variable_key_injective}
use enoki_jit.Var.State.{State, is_unused, put_var, add_ref}
use enoki_jit.Var.State.New.{prepare, is_numbered, reuse_value, jitc_var_new}
use enoki_jit.Var.State.New.Insert.{Inserted, insert_new-Inserted, final, final-key}
use enoki_jit.Var.State.New.Room.{Reusable}
use enoki_jit.Var.State.New.Reuse.{drop_operands_shared}
use enoki_jit.Var.State.Refs.{refs_of, se_refs_of}
use enoki_jit.Var.State.Refs.Loop.{Balanced}
use enoki_jit.Var.State.Refs.Balance.{plus_at, more, more-Counts}
use enoki_jit.Var.State.Refs.Shared.{Lightened}

final-Fits : (v : Variable) (c e : ℕ) → Fits v → Fits (final v c e)
final-Fits v c e f = record { d0 = f.d0; d1 = f.d1; d2 = f.d2; d3 = f.d3; scope = f.scope }

pub more_used : (x : Variable) → x.ref_count + 1 < 2 ^ 32 → is_unused (more x) ≡ false
more_used x h = ground arith

module _ {L : RobinMap VariableKey ℕ} where
  -- A variable in use at `i` that is not evaluated and has the given key.
  pub record Stands (s : State L) (key : VariableKey) (i : ℕ) : Type 0 where
    pub nonzero : i ≢ 0
    pub entry : Variable
    pub here : get_elem? s.variables i ≡ some entry
    pub used : is_unused entry ≡ false
    pub same_key : variable_key entry ≡ key
    pub traced : is_evaluated entry.kind ≡ false
    pub fits : Fits entry

  -- The map of value numbering leads to variables in use that have the key asked for.
  pub record Numbered (s : State L) : Type 0 where
    pub found : (key : VariableKey) (i : ℕ) → L.find s.lvn_map key ≡ some i → Stands s key i

  -- What the store keeps from one call to the next.
  pub record Sound (s : State L) (ext ext_se : ℕ → ℕ) : Type 0 where
    pub counts : Balanced s ext ext_se
    pub reusable : Reusable s
    pub numbered : Numbered s
    pub owned :
        (i : ℕ) (x : Variable)
        → get_elem? s.variables i ≡ some x
        → is_unused x ≡ false
        → x.extra ≢ 0
        → x.extra < length s.extra

  -- The caller holds a reference to `i`, where a variable with the key of `v` stands.
  pub record Recorded (v : Variable) (ext ext_se : ℕ → ℕ) (i : ℕ) (s' : State L) : Type 0 where
    pub sound : Sound s' (plus_at i ext) ext_se
    pub entry : Variable
    pub here : get_elem? s'.variables i ≡ some entry
    pub used : is_unused entry ≡ false
    pub same_key : variable_key entry ≡ variable_key v

  -- A change of counts alone leaves what stands at an index.
  Stands-Lightened :
      (s s' : State L) (k : VariableKey) (i : ℕ) → Lightened s s' → Stands s k i → Stands s' k i
  Stands-Lightened s s' k i l st =
      let (x', h, q) = l.keeps i st.entry st.here st.used in
      record {
        nonzero = st.nonzero;
        entry = x';
        here = h;
        used = q.used;
        same_key = ap variable_key q.same ∙ counted-key st.entry _ _ ∙ st.same_key;
        traced = ap (λ (x : Variable). is_evaluated x.kind) q.same ∙ st.traced;
        fits = subst Fits (sym q.same) (counted-Fits st.entry _ _ st.fits);
      }

  Stands-more :
      (s : State L) (k : VariableKey) (i j : ℕ) (x : Variable)
      → get_elem? s.variables i ≡ some x
      → is_unused (more x) ≡ false
      → Stands s k j
      → Stands (put_var s i (more x)) k j
  Stands-more s k i j x here u st = elim (Bool-cases (j == i)) [
    | inr e ↦ record {
      nonzero = st.nonzero;
      entry = st.entry;
      here = ground (arith, get_elem?-set s.variables i j (more x), st.here);
      used = st.used;
      same_key = st.same_key;
      traced = st.traced;
      fits = st.fits;
    }
    | inl e ↦
        let same : st.entry ≡ x = ground (arith, st.here) in
        record {
          nonzero = st.nonzero;
          entry = more x;
          here =
              ground
                (arith, get_elem?-set s.variables i j (more x), get_elem?-lt s.variables i x here);
          used = u;
          same_key = counted-key x _ _ ∙ ap variable_key (sym same) ∙ st.same_key;
          traced = subst (λ (y : Variable). is_evaluated y.kind ≡ false) same st.traced;
          fits = counted-Fits x _ _ (subst Fits same st.fits);
        }
  ]

  module _ (s : State L) (v : Variable) (ext ext_se : ℕ → ℕ) (f : Fits v)
      (small : (i : ℕ) (x : Variable) → get_elem? s.variables i ≡ some x → x.ref_count + 1 < 2 ^ 32)
      (sound : Sound s (λ j. ext j + refs_of j v) (λ j. ext_se j + se_refs_of j v)) where
    old-Stands :
        (lvn : Bool) (i : ℕ) (s' : State L)
        → Inserted s v lvn ext ext_se i s'
        → (k : VariableKey) (j : ℕ) → L.find s.lvn_map k ≡ some j
        → Stands s' k j
    old-Stands lvn i s' n k j h =
        let st = sound.numbered.found k j h in
        let apart : j ≢ i = ground (arith, n.was_free st.entry, st.here, st.used) in
        record {
          nonzero = st.nonzero;
          entry = st.entry;
          here = n.others j st.entry apart st.here;
          used = st.used;
          same_key = st.same_key;
          traced = st.traced;
          fits = st.fits;
        }

    Inserted-Stands :
        (lvn : Bool) (i : ℕ) (s' : State L)
        → (lvn ≡ true → is_evaluated v.kind ≡ false)
        → Inserted s v lvn ext ext_se i s'
        → (k : VariableKey) (j : ℕ) → L.find s'.lvn_map k ≡ some j
        → Stands s' k j
    Inserted-Stands lvn i s' t n k j h = elim (Bool-cases lvn) [
      | inr e ↦ old-Stands lvn i s' n k j (ground (arith, n.lvn_map))
      | inl e ↦ elim (Bool-cases (L.beq k (variable_key v))) [
        | inr d ↦
            old-Stands lvn i s' n k j
              (ground (arith, n.lvn_map, L.find-put s.lvn_map (variable_key v) k i))
        | inl d ↦
            let is_i : j ≡ i =
              ground (arith, n.lvn_map, L.find-put s.lvn_map (variable_key v) k i) in
            record {
              nonzero = rw is_i n.nonzero;
              entry = n.entry;
              here = rw is_i n.here;
              used = n.used;
              same_key =
                  ap variable_key n.is_final
                  ∙ final-key v _ _
                  ∙ sym ((L.beq_iff k (variable_key v)).0 d);
              traced = ap (λ (x : Variable). is_evaluated x.kind) n.is_final ∙ t e;
              fits = subst Fits (sym n.is_final) (final-Fits v _ _ f);
            }
      ]
    ]

    Inserted-Recorded :
        (lvn : Bool) (i : ℕ) (s' : State L)
        → (lvn ≡ true → is_evaluated v.kind ≡ false)
        → Inserted s v lvn ext ext_se i s'
        → Recorded v ext ext_se i s'
    Inserted-Recorded lvn i s' t n =
        let w = n.entry in
        let key : variable_key w ≡ variable_key v = ap variable_key n.is_final ∙ final-key v _ _ in
        record {
          sound = record {
            counts = n.counts;
            reusable = n.reusable;
            numbered = record { found = λ k j h. Inserted-Stands lvn i s' t n k j h };
            owned = λ j x h u z. elim (Bool-cases (j == i)) [
              | inl e ↦
                  let same : n.entry ≡ x = ground (arith, n.here) in
                  subst (λ (y : Variable). y.extra < length s'.extra) same
                    (n.owned (λ q. z (ap (λ (y : Variable). y.extra) (sym same) ∙ q)))
              | inr e ↦ omega (arith, n.grown, sound.owned j x (n.back j x (ground arith) h) u z)
            ];
          };
          entry = w;
          here = n.here;
          used = n.used;
          same_key = key;
        }

    reused-Reusable :
        (s1 : State L) (i : ℕ) (x1 : Variable)
        → get_elem? s1.variables i ≡ some x1
        → is_unused x1 ≡ false
        → Lightened s s1
        → Reusable (put_var s1 i (more x1))
    reused-Reusable s1 i x1 h1 u l =
        let r = sound.reusable in
        record {
          sentinel = rw length-set (omega (arith, get_elem?-lt s1.variables i x1 h1));
          ascends =
              subst (Ascends 0) (sym (ap (λ (a : State L). a.unused_variables) l.rest)) r.ascends;
          entries = λ j h.
              let (n, q) = r.entries j (
                subst (λ us. contains us j ≡ true) (ap (λ (a : State L). a.unused_variables) l.rest)
                  h) in
              let (y, g, z) = q in
              (
                n,
                (
                  y,
                  ground
                      (arith, get_elem?-set s1.variables i j (more x1), l.spares j y g z, h1, u, z),
                  z,
                ),
              );
          extras = λ e h. ground (
            arith,
            r.extras e,
            ap (λ (a : State L). a.unused_extra) l.rest,
            ap (λ (a : State L). a.extra) l.rest,
          );
        }

    reused-owned :
        (s1 : State L) (i : ℕ) (x1 : Variable)
        → get_elem? s1.variables i ≡ some x1
        → is_unused x1 ≡ false
        → Lightened s s1
        → (j : ℕ) (x : Variable) → get_elem? (put_var s1 i (more x1)).variables j ≡ some x
        → is_unused x ≡ false
        → x.extra ≢ 0
        → x.extra < length s1.extra
    reused-owned s1 i x1 h1 u1 l j x h u z =
        let extras : s1.extra ≡ s.extra = ap (λ (a : State L). a.extra) l.rest in
        elim (Bool-cases (j == i)) [
          | inl e ↦
              let same : more x1 ≡ x = ground (
                arith,
                get_elem?-set s1.variables i j (more x1),
                get_elem?-lt s1.variables i x1 h1,
              ) in
              let (y, g, d, a) = l.back i x1 h1 in
              let mine : x1.extra ≡ x.extra = ap (λ (b : Variable). b.extra) same in
              let bound = sound.owned i y g (sym a ∙ u1) (λ q. z (sym mine ∙ d ∙ q)) in
              omega (arith, bound, mine, d, ap length extras)
          | inr e ↦
              let (y, g, d, a) =
                l.back j x (ground (arith, get_elem?-set s1.variables i j (more x1))) in
              let bound = sound.owned j y g (sym a ∙ u) (λ q. z (d ∙ q)) in
              omega (arith, bound, d, ap length extras)
        ]

    Reused :
        (i : ℕ)
        → Stands s (variable_key v) i
        → (s' : State L) × (reuse_value s v i ≡ ok (i, s')) × Recorded v ext ext_se i s'
    unfolding reuse_value add_ref
    Reused i st =
        let x = st.entry in
        let same = variable_key_injective x v st.fits f st.same_key in
        let (s1, run, c, l) =
          drop_operands_shared ext ext_se s i x v st.here st.used same.dep same.write_ptr
            sound.counts in
        let (x1, h1, k) = l.keeps i x st.here st.used in
        let fits_in : x1.ref_count + 1 < 2 ^ 32 = omega (arith, small i x st.here, k.fewer) in
        let still : is_unused (more x1) ≡ false = more_used x1 fits_in in
        (
          put_var s1 i (more x1),
          rw (run, ◌>>=◌, h1, ◌>>=◌, k.used) refl,
          record {
            sound = record {
              counts = more-Counts s1.variables ext ext_se i x1 h1 k.used fits_in c;
              reusable = reused-Reusable s1 i x1 h1 k.used l;
              numbered = record {
                found = λ q j h. Stands-more s1 q i j x1 h1 still (
                    Stands-Lightened s s1 q j l (
                      sound.numbered.found q j (
                        subst (λ (m : L.Map). L.find m q ≡ some j)
                          (ap (λ (a : State L). a.lvn_map) l.rest) h)));
              };
              owned = reused-owned s1 i x1 h1 k.used l;
            };
            entry = more x1;
            here = get_elem?-set_here s1.variables i x1 (more x1) h1;
            used = still;
            same_key =
                counted-key x1 _ _ ∙ ap variable_key k.same ∙ counted-key x _ _ ∙ st.same_key;
          },
        )

module _ {L : RobinMap VariableKey ℕ} (s : State L) (v : Variable) (disable_lvn : Bool)
    (ext ext_se : ℕ → ℕ) where
  -- In a sound store where the caller holds references to the operands and no count of references is at
  -- its limit, and for a variable without references and extra record, of a kind other than evaluated,
  -- with operands below 2 ^ 28 and a scope below 2 ^ 32, jitc_var_new returns an index where a variable
  -- in use with the requested key stands; the store is sound again, the caller holds one reference to
  -- the index and none to the operands.
  pub jitc_var_new-Recorded :
      v.ref_count ≡ 0
      → v.ref_count_se ≡ 0
      → v.extra ≡ 0
      → is_evaluated v.kind ≡ false
      → Fits (prepare s v)
      → ((i : ℕ) (x : Variable) → get_elem? s.variables i ≡ some x → x.ref_count + 1 < 2 ^ 32)
      → Sound s (λ j. ext j + refs_of j v) (λ j. ext_se j + se_refs_of j v)
      → (i : ℕ) × (s' : State L) × (jitc_var_new s v disable_lvn ≡ ok (i, s'))
        × Recorded (prepare s v) ext ext_se i s'
  unfolding jitc_var_new prepare
  jitc_var_new-Recorded r0 r1 z t f small sound =
      let w = prepare s v in
      elim (Bool-cases (is_numbered s w disable_lvn)) [
        | inr e ↦
            let (i, s', run, n) =
              insert_new-Inserted s w false ext ext_se r0 r1 sound.reusable z sound.counts in
            (
              i,
              s',
              if_false _ _ e ∙ run,
              Inserted-Recorded s w ext ext_se f small sound false i s' (λ _. t) n,
            )
        | inl e ↦ elim (Option-cases (L.find s.lvn_map (variable_key w))) [
          | inl g ↦
              let (i, s', run, n) =
                insert_new-Inserted s w true ext ext_se r0 r1 sound.reusable z sound.counts in
              (
                i,
                s',
                if_true _ _ e ∙ rw g run,
                Inserted-Recorded s w ext ext_se f small sound true i s' (λ _. t) n,
              )
          | inr (i, g) ↦
              let (s', run, q) =
                Reused s w ext ext_se f small sound i (sound.numbered.found (variable_key w) i g) in
              (i, s', if_true _ _ e ∙ rw g run, q)
        ]
      ]
