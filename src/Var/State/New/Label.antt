-- ===== src/Var/State/New/Label.antt =====
-- src/var.cpp: the label of a new variable, and the record that holds it.
use Prim.Native.String
use enoki_jit.Prelude.{
  ℕ, ◌≤◌, set_self, ◌<◌, Bool, true, false, ◌&&◌, ◌||◌, ◌≡◌, refl, sym, ap, ◌≢◌, ◌∙◌, inl, inr,
  List, [], ◌∷◌, ◌++◌, none, some, length, get_elem?, set, contains, if◌then◌else◌, arith,
  Bool-cases, List-cases, get_elem?-set, get_elem?-lt, get_elem?-append_one, length-append,
  length-set, if_true, if_false,
}
use enoki_jit.Prelude.Result.{ok, ◌>>=◌}
use enoki_jit.RobinMap.{RobinMap}
use enoki_jit.Types.{JitBackend}
use enoki_jit.Var.Key.{Variable, VariableKey}
use enoki_jit.Var.State.{no_extra, Extra, State, thread_state}
use enoki_jit.Var.State.New.{text_of, jitc_var_extra, label_new}

module _ {L : RobinMap VariableKey ℕ} where
  -- The extra record of an entry that has none.
  jitc_var_extra-lem :
      (s : State L) (i : ℕ) (v : Variable)
      → ((e : ℕ) → contains s.unused_extra e ≡ true → e < length s.extra)
      → get_elem? s.variables i ≡ some v
      → v.extra ≡ 0
      → (e : ℕ) × (xs : List Extra) × (us : List ℕ) × (jitc_var_extra s i
          ≡ ok (
            e,
            record s {
              variables = set s.variables i (record v { extra = e });
              extra = xs;
              unused_extra = us;
            },
          ))
        × (get_elem? xs e ≡ some no_extra)
        × ((k : ℕ) → contains us k ≡ true → k < length xs)
        × (length s.extra ≤ length xs)
  unfolding jitc_var_extra
  jitc_var_extra-lem s i v r here z = elim (List-cases s.unused_extra) [
    | inl f ↦ (
      length s.extra,
      s.extra ++ no_extra ∷ [],
      [],
      ground arith,
      ground (arith, get_elem?-append_one s.extra (length s.extra) no_extra),
      (λ k h. ground arith),
      omega (arith, length-append s.extra (no_extra ∷ [])),
    )
    | inr (e, rest, f) ↦
        let small : e < length s.extra = r e (ground (arith, ap (λ xs. contains xs e) f)) in
        (
          e,
          set s.extra e no_extra,
          rest,
          ground arith,
          ground (arith, get_elem?-set s.extra e e no_extra),
          (λ k h. rw length-set (r k (ground (arith, ap (λ xs. contains xs k) f)))),
          omega (arith, length-set s.extra e no_extra),
        )
  ]

  -- A new variable is labelled in place, and nothing else of the store changes.
  pub label_new-lem :
      (s : State L) (b : JitBackend) (i : ℕ) (v : Variable)
      → ((e : ℕ) → contains s.unused_extra e ≡ true → e < length s.extra)
      → get_elem? s.variables i ≡ some v
      → v.extra ≡ 0
      → (e : ℕ) × (xs : List Extra) × (us : List ℕ) × (label_new s b i
          ≡ ok (record s {
            variables = set s.variables i (record v { extra = e });
            extra = xs;
            unused_extra = us;
          }))
        × ((k : ℕ) → contains us k ≡ true → k < length xs)
        × (e ≢ 0 → e < length xs)
        × (length s.extra ≤ length xs)
  unfolding label_new
  label_new-lem s b i v r here z =
      let prefix = (thread_state s b).label_prefix in
      let has_prefix : Bool = elim prefix [ none ↦ false | some _ ↦ true ] in
      let has_loc =
        s.flags.debug && elim s.location [ String.[] ↦ false | String.◌∷◌ _ _ ↦ true ] in
      let text = String.◌++◌ (text_of prefix) (if has_loc then s.location else String.[]) in
      let x : Extra = record { label = some text; callback = false } in
      elim (Bool-cases (has_prefix || has_loc)) [
        | inr n ↦ (
          v.extra,
          s.extra,
          s.unused_extra,
          if_false _ _ n
              ∙ ap (λ vs. ok (record s { variables = vs })) (sym (set_self s.variables i v here)),
          r,
          (λ n0. absurd (n0 z)),
          omega arith,
        )
        | inl y ↦
            let (e, xs, us, run, new, small, grown) = jitc_var_extra-lem s i v r here z in
            (
              e,
              set xs e x,
              us,
              if_true _ _ y ∙ rw (run, ◌>>=◌, new) refl,
              (λ k h. rw length-set (small k h)),
              (λ n0. omega (arith, length-set xs e x, get_elem?-lt xs e no_extra new)),
              omega (arith, length-set xs e x, grown),
            )
      ]
