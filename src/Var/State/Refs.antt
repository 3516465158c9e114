-- ===== src/Var/State/Refs.antt =====
-- src/var.cpp: what the reference counts of the variables mean. Each count is the number of
-- references from outside, and from the dependencies of variables in use.
pub mod Count
pub mod Drop
pub mod Loop
pub mod Balance
pub mod Fill
pub mod Shared
use enoki_jit.Prelude.{
  ℕ, zero, suc, ◌+◌, ◌-◌, ◌≤◌, ◌<◌, Bool, true, false, ◌&&◌, ◌≡◌, refl, ap, ◌≢◌, ◌⊎◌, inl, inr,
  List, [], ◌∷◌, Option, none, some, length, get_elem?, set, ◌==◌, if◌then◌else◌, arith,
  get_elem?-set, get_elem?-lt,
}
use enoki_jit.Var.Key.{Deps, Variable}
use enoki_jit.Var.State.{is_unused}
use enoki_jit.Var.State.Free.{live_count}

abbrev pub one : Bool → ℕ
one true = 1
one false = 0

-- How often `j` is among the dependencies.
abbrev pub occ : ℕ → Deps → ℕ
occ j d = one (d.d0 == j) + one (d.d1 == j) + one (d.d2 == j) + one (d.d3 == j)

-- The references and the side-effect references that a variable holds on `j`.
abbrev pub refs_of : ℕ → Variable → ℕ
refs_of j v = if v.write_ptr then 0 else occ j v.dep

abbrev pub se_refs_of : ℕ → Variable → ℕ
se_refs_of j v = if v.write_ptr then one (v.dep.d3 == j) else 0

abbrev pub if_used : (Variable → ℕ) → Variable → ℕ
if_used w v = if is_unused v then 0 else w v

-- A sum over all variables, over the variables listed, and the weight of one variable.
unfoldable pub total : (Variable → ℕ) → List Variable → ℕ
total w [] = 0
total w (v ∷ vs) = w v + total w vs

abbrev pub at : (Variable → ℕ) → List Variable → ℕ → ℕ
at w vs i = elim (get_elem? vs i) [ none ↦ 0 | some v ↦ w v ]

abbrev pub sum_at : (Variable → ℕ) → List Variable → List ℕ → ℕ
sum_at w vs [] = 0
sum_at w vs (p ∷ ps) = at w vs p + sum_at w vs ps

-- Each of the listed entries exists, has index other than 0 and is not in use.
abbrev pub AllUnused : List Variable → List ℕ → Type 0
AllUnused vs [] = Unit {0}
AllUnused vs (p ∷ ps) = (p ≢ 0) × (at (λ v. one (is_unused v)) vs p ≡ 1) × AllUnused vs ps

-- Every count is accounted for: outside references `ext`, `ext_se`; those of variables in use; those of
-- the `pending` variables, which are no longer in use but hold theirs still; and those in flight.
pub record Counts (vs : List Variable) (ext ext_se : ℕ → ℕ) (pending : List ℕ) (fly fly_se : ℕ → ℕ)
    : Type 0 where
  pub refs :
      (j : ℕ)
      → j ≢ 0
      → at (λ v. v.ref_count) vs j
        ≡ ext j + total (if_used (refs_of j)) vs + sum_at (refs_of j) vs pending + fly j
  pub se_refs :
      (j : ℕ)
      → j ≢ 0
      → at (λ v. v.ref_count_se) vs j
        ≡ ext_se j + total (if_used (se_refs_of j)) vs + sum_at (se_refs_of j) vs pending + fly_se j
  pub unused : AllUnused vs pending

pub total-set :
    (w : Variable → ℕ) (vs : List Variable) (i : ℕ) (v v' : Variable)
    → get_elem? vs i ≡ some v
    → total w (set vs i v') + w v ≡ total w vs + w v'
unfolding total
total-set w [] i v v' h = absurd (ground arith)
total-set w (x ∷ vs) zero v v' h = ground arith
total-set w (x ∷ vs) (suc i) v v' h = omega (arith, total-set w vs i v v' h)

pub live_count-set :
    (vs : List Variable) (i : ℕ) (v v' : Variable)
    → get_elem? vs i ≡ some v
    → live_count (set vs i v') + one (is_unused v') ≡ live_count vs + one (is_unused v)
unfolding live_count
live_count-set [] i v v' h = absurd (ground arith)
live_count-set (x ∷ vs) zero v v' h = ground arith
live_count-set (x ∷ vs) (suc i) v v' h = omega (arith, live_count-set vs i v v' h)

pub at-set :
    (w : Variable → ℕ) (vs : List Variable) (i j : ℕ) (v v' : Variable)
    → get_elem? vs i ≡ some v
    → at w (set vs i v') j ≡ (if j == i then w v' else at w vs j)
at-set w vs i j v v' h = ground (arith, get_elem?-set vs i j v', get_elem?-lt vs i v)

-- A change that keeps the weight of one entry keeps every sum of weights.
pub sum_at-set :
    (w : Variable → ℕ) (vs : List Variable) (i : ℕ) (v v' : Variable) (ps : List ℕ)
    → get_elem? vs i ≡ some v
    → w v' ≡ w v
    → sum_at w (set vs i v') ps ≡ sum_at w vs ps
sum_at-set w vs i v v' [] h e = refl
sum_at-set w vs i v v' (p ∷ ps) h e =
    ground (arith, at-set w vs i p v v', sum_at-set w vs i v v' ps h e)

pub AllUnused-set :
    (vs : List Variable) (i : ℕ) (v v' : Variable) (ps : List ℕ)
    → get_elem? vs i ≡ some v
    → (is_unused v ≡ true → is_unused v' ≡ true)
    → AllUnused vs ps
    → AllUnused (set vs i v') ps
AllUnused-set vs i v v' [] h e a = tt
AllUnused-set vs i v v' (p ∷ ps) h e a = (
  a.0,
  ground (arith, at-set (λ x. one (is_unused x)) vs i p v v', e),
  AllUnused-set vs i v v' ps h e a.2,
)
