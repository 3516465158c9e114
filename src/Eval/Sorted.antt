-- ===== src/Eval/Sorted.antt =====
-- src/eval.cpp: the schedule is sorted by descending size, then by scope, and otherwise keeps its order.
use enoki_jit.Prelude.{
  ℕ, ◌≤◌, ◌≡◌, refl, ◌∙◌, true, false, ◌&&◌, List, [], ◌∷◌, ◌==◌, if◌then◌else◌, arith,
}
use enoki_jit.Eval.{ScheduledVariable, comes_before, insert_scheduled, sort_schedule}

-- `b` may stand behind `a`.
pub record Follows (a b : ScheduledVariable) : Type 0 where
  pub size : b.size ≤ a.size
  pub scope : a.size ≡ b.size → a.scope ≤ b.scope

abbrev pub SortedFrom : ScheduledVariable → List ScheduledVariable → Type 0
SortedFrom a [] = Unit {0}
SortedFrom a (b ∷ bs) = Follows a b × SortedFrom b bs

abbrev pub Sorted : List ScheduledVariable → Type 0
Sorted [] = Unit {0}
Sorted (a ∷ bs) = SortedFrom a bs

before-Follows : (a b : ScheduledVariable) → comes_before a b ≡ true → Follows a b
unfolding comes_before
before-Follows a b e = record { size = ground arith; scope = λ s. ground arith }

behind-Follows : (a b : ScheduledVariable) → comes_before b a ≡ false → Follows a b
unfolding comes_before
behind-Follows a b e = record { size = ground arith; scope = λ s. ground arith }

insert-SortedFrom :
    (a x : ScheduledVariable) (ys : List ScheduledVariable)
    → Follows a x
    → SortedFrom a ys
    → SortedFrom a (insert_scheduled x ys)
unfolding insert_scheduled
insert-SortedFrom a x [] f s = (f, tt)
insert-SortedFrom a x (y ∷ ys) f s =
    elim (comes_before y x)
        as (λ b.
          comes_before y x ≡ b
          → SortedFrom a (elim b [ true ↦ y ∷ insert_scheduled x ys | false ↦ x ∷ y ∷ ys ])) [
            | true ↦ λ e. (s.0, insert-SortedFrom y x ys (before-Follows y x e) s.1)
            | false ↦ λ e. (f, (behind-Follows x y e, s.1))
          ]
      refl

insert-Sorted :
    (x : ScheduledVariable) (ys : List ScheduledVariable)
    → Sorted ys
    → Sorted (insert_scheduled x ys)
unfolding insert_scheduled
insert-Sorted x [] s = tt
insert-Sorted x (y ∷ ys) s =
    elim (comes_before y x)
        as (λ b.
          comes_before y x ≡ b
          → Sorted (elim b [ true ↦ y ∷ insert_scheduled x ys | false ↦ x ∷ y ∷ ys ])) [
            | true ↦ λ e. insert-SortedFrom y x ys (before-Follows y x e) s
            | false ↦ λ e. (behind-Follows x y e, s)
          ]
      refl

-- The entries of one size and scope, in their order.
unfoldable pub alike : ℕ → ℕ → List ScheduledVariable → List ScheduledVariable
alike size scope [] = []
alike size scope (v ∷ vs) =
    if v.size == size && v.scope == scope then v ∷ alike size scope vs else alike size scope vs

alike-insert :
    (size scope : ℕ) (x : ScheduledVariable) (ys : List ScheduledVariable)
    → alike size scope (insert_scheduled x ys) ≡ alike size scope (x ∷ ys)
unfolding insert_scheduled alike comes_before
alike-insert size scope x [] = refl
alike-insert size scope x (y ∷ ys) = ground (arith, alike-insert size scope x ys)

alike-same :
    (size scope : ℕ) (x : ScheduledVariable) (ys zs : List ScheduledVariable)
    → alike size scope ys ≡ alike size scope zs
    → alike size scope (x ∷ ys) ≡ alike size scope (x ∷ zs)
unfolding alike
alike-same size scope x ys zs e = rw e refl

-- The sorted schedule has its entries by descending size and, within a size, by ascending scope;
-- the entries of the same size and scope are those of the schedule, in the same order.
pub sort_schedule-Sorted :
    (s : List ScheduledVariable)
    → Sorted (sort_schedule s)
      × ((size scope : ℕ) → alike size scope (sort_schedule s) ≡ alike size scope s)
unfolding sort_schedule
sort_schedule-Sorted [] = (tt, λ size scope. refl)
sort_schedule-Sorted (x ∷ xs) =
    let (sorted, kept) = sort_schedule-Sorted xs in
    (
      insert-Sorted x (sort_schedule xs) sorted,
      λ size scope.
          alike-insert size scope x (sort_schedule xs)
          ∙ alike-same size scope x (sort_schedule xs) xs (kept size scope),
    )
