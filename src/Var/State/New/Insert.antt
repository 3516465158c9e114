-- ===== src/Var/State/New/Insert.antt =====
-- src/var.cpp: a new entry in the trace takes over the references that its creator held.
use enoki_jit.Prelude.{
  ℕ, ◌≤◌, set-set, get_elem?-set_here, ◌+◌, ◌%◌, ◌^◌, ◌<◌, Bool, true, false, ◌≡◌, refl, ap, ◌≢◌,
  ◌∙◌, List, some, length, get_elem?, set, contains, if◌then◌else◌, arith, get_elem?-set,
  length-set,
}
use enoki_jit.Prelude.Result.{ok, ◌>>=◌}
use enoki_jit.RobinMap.{RobinMap}
use enoki_jit.Var.Key.{Variable, VariableKey, variable_key}
use enoki_jit.Var.State.{Extra, State, is_unused, put_var, add_ref}
use enoki_jit.Var.State.New.{label_new, take_index, insert_new}
use enoki_jit.Var.State.Refs.{refs_of, se_refs_of}
use enoki_jit.Var.State.Refs.Loop.{Balanced}
use enoki_jit.Var.State.Refs.Balance.{plus_at}
use enoki_jit.Var.State.Refs.Fill.{fill-Counts}
use enoki_jit.Var.State.New.Room.{Reusable, Room, take_index-Room}
use enoki_jit.Var.State.New.Label.{label_new-lem}

-- The variable as it finally stands in the trace.
abbrev pub final : Variable → ℕ → ℕ → Variable
final v c e = record v { counter = c; extra = e; ref_count = (v.ref_count + 1) % 2 ^ 32 }

pub final-key : (v : Variable) (c e : ℕ) → variable_key (final v c e) ≡ variable_key v
unfolding variable_key
final-key v c e = refl

module _ {L : RobinMap VariableKey ℕ} where
  -- The value `v` now stands at `i`, which was free; `i` holds the references that the caller held for
  -- its operands, and the caller holds one to `i`.
  pub record Inserted (s : State L) (v : Variable) (lvn : Bool) (ext ext_se : ℕ → ℕ) (i : ℕ)
      (s' : State L) : Type 0 where
    pub nonzero : i ≢ 0
    pub entry : Variable
    pub here : get_elem? s'.variables i ≡ some entry
    pub used : is_unused entry ≡ false
    pub is_final : entry ≡ final v entry.counter entry.extra
    pub was_free : (x : Variable) → get_elem? s.variables i ≡ some x → is_unused x ≡ true
    pub others :
        (j : ℕ) (x : Variable)
        → j ≢ i
        → get_elem? s.variables j ≡ some x
        → get_elem? s'.variables j ≡ some x
    pub lvn_map : s'.lvn_map ≡ (if lvn then L.put s.lvn_map (variable_key v) i else s.lvn_map)
    pub back :
        (j : ℕ) (x : Variable)
        → j ≢ i
        → get_elem? s'.variables j ≡ some x
        → get_elem? s.variables j ≡ some x
    pub owned : entry.extra ≢ 0 → entry.extra < length s'.extra
    pub grown : length s.extra ≤ length s'.extra
    pub reusable : Reusable s'
    pub counts : Balanced s' (plus_at i ext) ext_se

  numbered_if :
      (s : State L) (lvn : Bool) (m : L.Map)
      → (if lvn then record s { lvn_map = m } else s)
        ≡ record s { lvn_map = if lvn then m else s.lvn_map }
  numbered_if s true m = refl
  numbered_if s false m = refl

  module _ (s : State L) (v : Variable) (lvn : Bool) (ext ext_se : ℕ → ℕ) (r0 : v.ref_count ≡ 0)
      (r1 : v.ref_count_se ≡ 0) where
    final-Inserted :
        (i : ℕ) (s1 : State L) (room : Room s i s1) (e : ℕ) (xs : List Extra) (us : List ℕ)
        → ((k : ℕ) → contains us k ≡ true → k < length xs)
        → (e ≢ 0 → e < length xs)
        → length s1.extra ≤ length xs
        → Balanced s (λ j. ext j + refs_of j v) (λ j. ext_se j + se_refs_of j v)
        → Inserted s v lvn ext ext_se i (record s1 {
          variables = set s1.variables i (final v room.entry.counter e);
          lvn_map = if lvn then L.put s1.lvn_map (variable_key v) i else s1.lvn_map;
          extra = xs;
          unused_extra = us;
          variable_counter = s1.variable_counter + 1;
        })
    final-Inserted i s1 room e xs us small owned grown b =
        let u = room.entry in
        let w = final v u.counter e in
        record {
          nonzero = room.nonzero;
          entry = w;
          here = get_elem?-set_here s1.variables i u w room.here;
          used = rw r0 refl;
          is_final = refl;
          was_free = λ x h. ground (arith, room.grows i x h, room.here, room.free);
          others = λ j x n h. ground (arith, get_elem?-set s1.variables i j w, room.grows j x h);
          lvn_map = rw room.lvn refl;
          back = λ j x n h. room.back j x n (ground (arith, get_elem?-set s1.variables i j w));
          owned = owned;
          grown = omega (arith, grown, ap length room.extra);
          reusable = record {
            sentinel = rw length-set room.reusable.sentinel;
            ascends = room.reusable.ascends;
            entries = λ j h.
                let (n, q) = room.reusable.entries j h in
                let (x, g, f) = q in
                (n, (x, ground (arith, get_elem?-set s1.variables i j w, g, room.apart, h), f));
            extras = small;
          };
          counts =
              fill-Counts s1.variables ext ext_se i u w room.nonzero room.here room.free
                (rw r0 refl) r1 (room.counts _ _ b);
        }

    insert_new-run :
        (u : Variable)
        → get_elem? (take_index s).1.variables (take_index s).0 ≡ some u
        → is_unused u ≡ true
        → (e : ℕ) (xs : List Extra) (us : List ℕ)
        → let i = (take_index s).0 in
          let s1 = (take_index s).1 in
          let w0 : Variable = record v { counter = u.counter } in
          let map = if lvn then L.put s1.lvn_map (variable_key v) i else s1.lvn_map in
          label_new (record s1 { variables = set s1.variables i w0; lvn_map = map }) v.backend i
            ≡ ok (record s1 {
              variables = set (set s1.variables i w0) i (record w0 { extra = e });
              lvn_map = map;
              extra = xs;
              unused_extra = us;
            })
          → insert_new s v lvn
            ≡ ok (
              i,
              record s1 {
                variables = set s1.variables i (final v u.counter e);
                lvn_map = map;
                extra = xs;
                unused_extra = us;
                variable_counter = s1.variable_counter + 1;
              },
            )
    unfolding insert_new add_ref variable_key
    insert_new-run u here free e xs us run =
        let i = (take_index s).0 in
        let s1 = (take_index s).1 in
        let w0 : Variable = record v { counter = u.counter } in
        let s3 : State L = record s1 { variables = set s1.variables i w0 } in
        let here3 : get_elem? s3.variables i ≡ some w0 =
          get_elem?-set_here s1.variables i u w0 here in
        let w1 : Variable = record w0 { extra = e } in
        let here4 : get_elem? (set s3.variables i w1) i ≡ some w1 =
          get_elem?-set_here s3.variables i w0 w1 here3 in
        let w = final v u.counter e in
        let same : set (set s3.variables i w1) i w ≡ set s1.variables i w =
          set-set s3.variables i w1 w ∙ set-set s1.variables i w0 w in
        rw
          (
            here,
            ◌>>=◌,
            free,
            numbered_if (put_var s1 i w0) lvn (L.put s1.lvn_map (variable_key v) i),
            run,
            ◌>>=◌,
            here4,
            ◌>>=◌,
            same,
          )
          refl

    pub insert_new-Inserted :
        Reusable s
        → v.extra ≡ 0
        → Balanced s (λ j. ext j + refs_of j v) (λ j. ext_se j + se_refs_of j v)
        → (i : ℕ) × (s' : State L) × (insert_new s v lvn ≡ ok (i, s'))
          × Inserted s v lvn ext ext_se i s'
    unfolding insert_new add_ref variable_key
    insert_new-Inserted r z b =
        let i = (take_index s).0 in
        let s1 = (take_index s).1 in
        let room = take_index-Room s r in
        let u = room.entry in
        let w0 : Variable = record v { counter = u.counter } in
        let map = if lvn then L.put s1.lvn_map (variable_key v) i else s1.lvn_map in
        let s3 : State L = record s1 { variables = set s1.variables i w0; lvn_map = map } in
        let here3 : get_elem? s3.variables i ≡ some w0 =
          get_elem?-set_here s1.variables i u w0 room.here in
        let (e, xs, us, run, small, owned, grown) =
          label_new-lem s3 v.backend i w0 room.reusable.extras here3 z in
        (
          i,
          _,
          insert_new-run u room.here room.free e xs us run,
          final-Inserted i s1 room e xs us small owned grown b,
        )
