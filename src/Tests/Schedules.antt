-- ===== src/Tests/Schedules.antt =====
-- A schedule of three variables of two sizes, for src/eval.cpp.
use enoki_jit.Prelude.{ℕ, ◌≡◌, refl, List, [], ◌∷◌}
use enoki_jit.Eval.{ScheduledVariable, new_group, sort_schedule, group_schedule}
use enoki_jit.Eval.Sorted.{Sorted, alike, sort_schedule-Sorted}
use enoki_jit.Eval.Grouped.{Tiles, group_schedule-Tiles}
use enoki_jit.Prelude.{true, false, ◌+◌, ◌==◌, arith}
use enoki_jit.Prelude.Result.{ok}
use enoki_jit.Var.Key.{Variable, zero_variable}
use enoki_jit.Var.State.{State}
use enoki_jit.Var.State.Refs.{one, total}
use enoki_jit.Var.State.Refs.Loop.{zeros, Balanced}
use enoki_jit.Eval.CleanUp.{has_callback, clean_up_one}
use enoki_jit.Eval.CleanUp.Edges.{Cleans}
use enoki_jit.Eval.CleanUp.Balance.{given_back, clean_up_one-Balanced}
use enoki_jit.Tests.Maps.{key_map}
use enoki_jit.Tests.References.{unit, negated, state_of}

abbrev pub entry : ℕ → ℕ → ℕ → ScheduledVariable
entry size scope index = record { size = size; scope = scope; index = index; pointer = 0 }

abbrev pub schedule : List ScheduledVariable
schedule = entry 8 2 1 ∷ entry 100 3 2 ∷ entry 8 1 3 ∷ []

sort_schedule-Sorted_example :
    Sorted (sort_schedule schedule)
    × ((size scope : ℕ) → alike size scope (sort_schedule schedule) ≡ alike size scope schedule)
sort_schedule-Sorted_example = sort_schedule-Sorted schedule

group_schedule-Tiles_example :
    Tiles 0 (sort_schedule schedule) (group_schedule (sort_schedule schedule))
group_schedule-Tiles_example = group_schedule-Tiles schedule

groups_of_schedule :
    group_schedule (sort_schedule schedule) ≡ new_group 100 0 1 ∷ new_group 8 1 3 ∷ []
unfolding group_schedule sort_schedule
groups_of_schedule = refl

-- `-x`, an output that its owner and the schedule hold, is computed; its edge to `x` goes.
abbrev pub output : Variable
output = record (negated 2) { output_flag = true }

unfoldable pub launched : State key_map
unfolding state_of
launched = state_of (zero_variable ∷ unit 1 0 ∷ output ∷ [])

abbrev pub both_hold : ℕ → ℕ
both_hold j = one (2 == j) + one (2 == j)

launched-Balanced : Balanced launched both_hold zeros
unfolding launched state_of total
launched-Balanced = record {
  refs = λ j n. ground arith;
  se_refs = λ j n. ground arith;
  unused = tt;
}

clean_up_one-Balanced_example :
    (s' : State key_map) × (clean_up_one (entry 1 2 2) [] launched ≡ ok ([], s'))
    × Balanced s' (given_back 2 false false both_hold) zeros
    × Cleans (entry 1 2 2) output s'
unfolding launched state_of has_callback
clean_up_one-Balanced_example =
    clean_up_one-Balanced both_hold zeros launched (entry 1 2 2) [] output false launched-Balanced
      (ground arith) refl refl refl refl (omega arith) (omega arith)
