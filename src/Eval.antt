-- ===== src/Eval.antt =====
-- src/eval.cpp, src/eval.h: the order of the scheduled variables and their groups in `jitc_eval_impl`.
pub mod Sorted
pub mod Grouped
pub mod CleanUp
use enoki_jit.Prelude.{ℕ, ◌+◌, Bool, true, false, List, [], ◌∷◌, length, ltb, ◌==◌, if◌then◌else◌}

-- `pointer` is `data`, which is null until the launch.
pub record ScheduledVariable : Type 0 where
  pub size : ℕ
  pub scope : ℕ
  pub index : ℕ
  pub pointer : ℕ

pub record ScheduledGroup : Type 0 where
  pub size : ℕ
  pub start : ℕ
  pub end : ℕ

-- The comparison given to `std::stable_sort`.
unfoldable pub comes_before : ScheduledVariable → ScheduledVariable → Bool
comes_before a b =
    if ltb b.size a.size
    then true
    else if ltb a.size b.size
    then false
    else if ltb b.scope a.scope
    then false
    else if ltb a.scope b.scope
    then true
    else false

-- `std::stable_sort`: an entry goes in front of those that do not come before it.
unfoldable pub insert_scheduled :
    ScheduledVariable → List ScheduledVariable → List ScheduledVariable
unfolding comes_before
insert_scheduled x [] = x ∷ []
insert_scheduled x (y ∷ ys) = elim (comes_before y x) [
  | true ↦ y ∷ insert_scheduled x ys
  | false ↦ x ∷ y ∷ ys
]

unfoldable pub sort_schedule : List ScheduledVariable → List ScheduledVariable
unfolding insert_scheduled
sort_schedule [] = []
sort_schedule (x ∷ xs) = insert_scheduled x (sort_schedule xs)

abbrev pub new_group : ℕ → ℕ → ℕ → ScheduledGroup
new_group size start end = record { size = size; start = start; end = end }

-- The loop over `i`: `size` and `cur` are of the open group, `last` is the size at `i - 1`.
unfoldable pub split_groups : ℕ → ℕ → ℕ → ℕ → List ScheduledVariable → List ScheduledGroup
split_groups size last cur i [] = new_group size cur i ∷ []
split_groups size last cur i (v ∷ vs) = elim (last == v.size) [
  | true ↦ split_groups size v.size cur (i + 1) vs
  | false ↦ new_group size cur i ∷ split_groups v.size v.size i (i + 1) vs
]

unfoldable pub last_size : ScheduledVariable → List ScheduledVariable → ℕ
last_size v [] = v.size
last_size v (w ∷ ws) = last_size w ws

-- The groups of a schedule that is sorted; an empty one has been left before.
unfoldable pub group_schedule : List ScheduledVariable → List ScheduledGroup
unfolding split_groups last_size
group_schedule [] = []
group_schedule (v ∷ vs) =
    if v.size == last_size v vs
    then new_group v.size 0 (length (v ∷ vs)) ∷ []
    else split_groups v.size v.size 0 1 vs
