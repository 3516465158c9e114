-- ===== src/Tests/Values.antt =====
-- src/var.cpp: `-x` is recorded a second time, and found.
use enoki_jit.Prelude.{ℕ, ◌+◌, ◌≡◌, refl, false, some, List, [], ◌∷◌, arith}
use enoki_jit.Prelude.Result.{ok}
use enoki_jit.RobinMap.{RobinMap}
use enoki_jit.RobinMap.Assoc.{assoc_map}
use enoki_jit.Var.Key.{VariableKey, variable_key, zero_variable}
use enoki_jit.Var.Key.Injective.{Fits}
use enoki_jit.Var.State.{State}
use enoki_jit.Var.State.New.{prepare, jitc_var_new}
use enoki_jit.Var.State.New.Value
use enoki_jit.Var.State.Refs.{refs_of, se_refs_of, total}
use enoki_jit.Var.State.Free.{jitc_var_dec_ref}
use enoki_jit.Var.State.Runs
use enoki_jit.Var.State.Frees.{Frees}
use enoki_jit.Var.State.Refs.Loop.{minus_at, zeros}
use enoki_jit.Tests.Maps.{key_map, same_key_iff}
use enoki_jit.Tests.References.{unit, negated, state_of, only}

abbrev numbers : List (VariableKey × ℕ)
unfolding variable_key
numbers = (variable_key (negated 1), 2) ∷ []

negated-Fits : (refs : ℕ) → Fits (negated refs)
negated-Fits refs = record {
  d0 = omega arith;
  d1 = omega arith;
  d2 = omega arith;
  d3 = omega arith;
  scope = omega arith;
}

-- The caller holds the node at 2, and for the new node a reference to the literal.
unfoldable noted : State key_map
unfolding state_of key_map assoc_map
noted = record (state_of (zero_variable ∷ unit 2 0 ∷ negated 1 ∷ [])) { lvn_map = numbers }

numbers_lem :
    (key : VariableKey) (i : ℕ)
    → RobinMap.find key_map noted.lvn_map key ≡ some i
    → (variable_key (negated 1) ≡ key) × (i ≡ 2)
unfolding noted state_of key_map assoc_map variable_key
numbers_lem key i h = ground (arith, same_key_iff (variable_key (negated 1)) key)

noted-Sound :
    Value.Sound noted
      (λ j. only 2 j + refs_of j (negated 0))
      (λ j. zeros j + se_refs_of j (negated 0))
unfolding noted state_of total key_map assoc_map variable_key
noted-Sound = record {
  counts = record { refs = λ j n. ground arith; se_refs = λ j n. ground arith; unused = tt };
  reusable = record {
    sentinel = omega arith;
    ascends = tt;
    entries = λ i h. absurd (ground arith);
    extras = λ e h. ground arith;
  };
  numbered = record {
    found = λ key i h.
        let (k, e) = numbers_lem key i h in
        record {
          nonzero = ground (arith, e);
          entry = negated 1;
          here = rw e refl;
          used = refl;
          same_key = k;
          traced = refl;
          fits = negated-Fits 1;
        };
  };
  owned = λ i x h u z. ground arith;
}

jitc_var_new-Recorded_example :
    (i : ℕ) × (s' : State key_map) × (jitc_var_new noted (negated 0) false ≡ ok (i, s'))
    × Value.Recorded (prepare noted (negated 0)) (only 2) zeros i s'
unfolding noted state_of prepare
jitc_var_new-Recorded_example =
    Value.jitc_var_new-Recorded noted (negated 0) false (only 2) zeros refl refl refl refl
      (negated-Fits 0) (λ i x h. ground arith) noted-Sound

jitc_var_dec_ref-Sound_example :
    (s' : State key_map) × (jitc_var_dec_ref noted 2 ≡ ok s')
    × Value.Sound s'
        (minus_at 2 (λ j. only 2 j + refs_of j (negated 0)))
        (λ j. zeros j + se_refs_of j (negated 0))
    × Frees zeros noted s'
jitc_var_dec_ref-Sound_example =
    Runs.jitc_var_dec_ref-Sound (λ j. only 2 j + refs_of j (negated 0))
      (λ j. zeros j + se_refs_of j (negated 0)) noted noted-Sound 2 (ground arith) (omega arith)
