-- ===== src/Eval/Grouped.antt =====
-- src/eval.cpp: the groups cover the sorted schedule, one group for each size.
use enoki_jit.Prelude.{
  ℕ, ◌+◌, ◌≤◌, ◌<◌, ◌≡◌, refl, ◌∙◌, sym, subst, true, false, List, [], ◌∷◌, ◌++◌, length, ◌==◌,
  if_true, if_false, arith, inl, inr, Bool-cases, length-append, append_one, append-nil,
}
use enoki_jit.Eval.{
  ScheduledVariable, ScheduledGroup, new_group, sort_schedule, split_groups, last_size,
  group_schedule,
}
use enoki_jit.Eval.Sorted.{SortedFrom, Sorted, sort_schedule-Sorted}

-- All entries are of a size; all are below it.
abbrev pub AllOf : ℕ → List ScheduledVariable → Type 0
AllOf size [] = Unit {0}
AllOf size (v ∷ vs) = (v.size ≡ size) × AllOf size vs

abbrev pub AllBelow : ℕ → List ScheduledVariable → Type 0
AllBelow size [] = Unit {0}
AllBelow size (v ∷ vs) = (v.size < size) × AllBelow size vs

-- The groups, from position `n` on, cut the schedule into pieces of one size each, with all entries
-- of that size that are left.
abbrev pub Tiles : ℕ → List ScheduledVariable → List ScheduledGroup → Type 0
Tiles n s [] = s ≡ []
Tiles n s (g ∷ gs) =
    (xs ys : List ScheduledVariable) × (s ≡ xs ++ ys)
    × (g.start ≡ n)
    × (g.end ≡ n + length xs)
    × (1 ≤ length xs)
    × AllOf g.size xs
    × AllBelow g.size ys
    × Tiles g.end ys gs

AllOf-append_one :
    (size : ℕ) (xs : List ScheduledVariable) (v : ScheduledVariable)
    → AllOf size xs
    → v.size ≡ size
    → AllOf size (xs ++ v ∷ [])
AllOf-append_one size [] v a e = (e, tt)
AllOf-append_one size (x ∷ xs) v a e = (a.0, AllOf-append_one size xs v a.1 e)

SortedFrom-AllBelow :
    (size : ℕ) (v : ScheduledVariable) (vs : List ScheduledVariable)
    → v.size < size
    → SortedFrom v vs
    → AllBelow size (v ∷ vs)
SortedFrom-AllBelow size v [] h s = (h, tt)
SortedFrom-AllBelow size v (w ∷ ws) h s =
    (h, SortedFrom-AllBelow size w ws (omega (arith, s.0.size, h)) s.1)

last_size-le :
    (v : ScheduledVariable) (vs : List ScheduledVariable)
    → SortedFrom v vs
    → last_size v vs ≤ v.size
unfolding last_size
last_size-le v [] s = omega arith
last_size-le v (w ∷ ws) s = omega (arith, last_size-le w ws s.1, s.0.size)

last_size-AllOf :
    (v : ScheduledVariable) (vs : List ScheduledVariable)
    → SortedFrom v vs
    → v.size ≡ last_size v vs
    → AllOf v.size vs
unfolding last_size
last_size-AllOf v [] s e = tt
last_size-AllOf v (w ∷ ws) s e =
    let same : w.size ≡ v.size = omega (arith, last_size-le w ws s.1, s.0.size, e) in
    (same, subst (λ k. AllOf k ws) same (last_size-AllOf w ws s.1 (same ∙ e)))

-- The open group holds `xs`, of which `v` is the last entry.
split_groups-Tiles :
    (size cur i : ℕ) (v : ScheduledVariable) (xs vs : List ScheduledVariable)
    → AllOf size xs
    → 1 ≤ length xs
    → i ≡ cur + length xs
    → v.size ≡ size
    → SortedFrom v vs
    → Tiles cur (xs ++ vs) (split_groups size v.size cur i vs)
unfolding split_groups
split_groups-Tiles size cur i v xs [] a h e t s = (xs, [], refl, refl, e, h, a, tt, refl)
split_groups-Tiles size cur i v xs (w ∷ ws) a h e t s =
    elim (v.size == w.size)
        as (λ b.
          (v.size == w.size) ≡ b
          → Tiles cur (xs ++ w ∷ ws) (elim b [
            | true ↦ split_groups size w.size cur (i + 1) ws
            | false ↦ new_group size cur i ∷ split_groups w.size w.size i (i + 1) ws
          ])) [
            | true ↦ λ q.
                let same : w.size ≡ size = ground (arith, t) in
                subst (λ l. Tiles cur l (split_groups size w.size cur (i + 1) ws))
                  (append_one xs w ws)
                  (split_groups-Tiles size cur (i + 1) w (xs ++ w ∷ []) ws
                    (AllOf-append_one size xs w a same) (omega (arith, length-append xs (w ∷ [])))
                    (omega (arith, e, length-append xs (w ∷ []))) same s.1)
            | false ↦ λ q.
                let low : w.size < size = ground (arith, t, s.0.size) in
                (
                  xs,
                  w ∷ ws,
                  refl,
                  refl,
                  e,
                  h,
                  a,
                  SortedFrom-AllBelow size w ws low s.1,
                  split_groups-Tiles w.size i (i + 1) w (w ∷ []) ws (refl, tt) (omega arith) refl
                      refl s.1,
                )
          ]
      refl

Sorted-Tiles : (s : List ScheduledVariable) → Sorted s → Tiles 0 s (group_schedule s)
unfolding group_schedule
Sorted-Tiles [] s = refl
Sorted-Tiles (v ∷ vs) s = elim (Bool-cases (v.size == last_size v vs)) [
  | inl e ↦
      let flat : v.size ≡ last_size v vs = ground arith in
      subst (Tiles 0 (v ∷ vs)) (sym (if_true _ _ e)) (
        v ∷ vs,
        [],
        sym (append-nil (v ∷ vs)),
        refl,
        omega arith,
        omega arith,
        (refl, last_size-AllOf v vs s flat),
        tt,
        refl,
      )
  | inr e ↦
      subst (Tiles 0 (v ∷ vs)) (sym (if_false _ _ e))
        (split_groups-Tiles v.size 0 1 v (v ∷ []) vs (refl, tt) (omega arith) (omega arith) refl s)
]

-- The groups that `jitc_eval` launches one kernel each for cover the sorted schedule from its start to
-- its end without a gap: none is empty, each holds entries of its size only, and all of them.
pub group_schedule-Tiles :
    (s : List ScheduledVariable) → Tiles 0 (sort_schedule s) (group_schedule (sort_schedule s))
group_schedule-Tiles s = Sorted-Tiles (sort_schedule s) (sort_schedule-Sorted s).0
