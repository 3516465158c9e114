-- ===== src/Prelude/Lists.antt =====
-- Vectors: lists measured and indexed by native numbers, under the library's names.
use Prim.Native.Nat.{ℕ, zero, suc, ◌+◌, ◌≤◌, ◌<◌}
use mathlib.Core.Path.{◌≡◌, refl, ap}
use mathlib.Core.Logic.{◌⊎◌, inl, inr}
use mathlib.Core.Bool.{Bool, false, ◌||◌}
use mathlib.Core.List.{List, [], ◌∷◌, ◌++◌}
use mathlib.Core.Option.{Option, none, some}
use native.Mathlib.Omega.{arith}
use enoki_jit.Prelude.Tests.{◌==◌, ltb, if◌then◌else◌}

module _ {ℓ} {A : Type ℓ} where
  abbrev pub length : List A → ℕ
  length [] = 0
  length (x ∷ xs) = suc (length xs)

  abbrev pub get_elem? : List A → ℕ → Option A
  get_elem? [] i = none
  get_elem? (x ∷ xs) zero = some x
  get_elem? (x ∷ xs) (suc i) = get_elem? xs i

  -- A write out of bounds changes nothing.
  abbrev pub set : List A → ℕ → A → List A
  set [] i v = []
  set (x ∷ xs) zero v = v ∷ xs
  set (x ∷ xs) (suc i) v = x ∷ set xs i v

  pub length-append : (xs ys : List A) → length (xs ++ ys) ≡ length xs + length ys
  length-append [] ys = omega arith
  length-append (x ∷ xs) ys = omega (arith, length-append xs ys)

  pub length-set : (xs : List A) (i : ℕ) (v : A) → length (set xs i v) ≡ length xs
  length-set (x ∷ xs) (suc i) v = ap suc (length-set xs i v)
  length-set _ _ v = refl

  pub get_elem?-set :
      (xs : List A) (i j : ℕ) (v : A)
      → get_elem? (set xs i v) j
        ≡ (if j == i then (if ltb j (length xs) then some v else none) else get_elem? xs j)
  get_elem?-set [] i j v = ground arith
  get_elem?-set (x ∷ xs) zero zero v = ground arith
  get_elem?-set (x ∷ xs) zero (suc j) v = ground arith
  get_elem?-set (x ∷ xs) (suc i) zero v = ground arith
  get_elem?-set (x ∷ xs) (suc i) (suc j) v = ground (arith, get_elem?-set xs i j v)

  -- `push_back`.
  pub get_elem?-append_one :
      (xs : List A) (j : ℕ) (v : A)
      → get_elem? (xs ++ v ∷ []) j ≡ (if j == length xs then some v else get_elem? xs j)
  get_elem?-append_one [] zero v = refl
  get_elem?-append_one [] (suc j) v = ground arith
  get_elem?-append_one (x ∷ xs) zero v = ground arith
  get_elem?-append_one (x ∷ xs) (suc j) v = ground (arith, get_elem?-append_one xs j v)

  pub get_elem?-none : (xs : List A) (j : ℕ) → length xs ≤ j → get_elem? xs j ≡ none
  get_elem?-none [] j h = refl
  get_elem?-none (x ∷ xs) zero h = absurd (omega arith)
  get_elem?-none (x ∷ xs) (suc j) h = get_elem?-none xs j (omega arith)

  pub get_elem?-lt : (xs : List A) (j : ℕ) (v : A) → get_elem? xs j ≡ some v → j < length xs
  get_elem?-lt [] j v h = absurd (cc)
  get_elem?-lt (x ∷ xs) zero v h = omega arith
  get_elem?-lt (x ∷ xs) (suc j) v h = omega (arith, get_elem?-lt xs j v h)

  pub get_elem?-some : (xs : List A) (j : ℕ) → j < length xs → (v : A) × (get_elem? xs j ≡ some v)
  get_elem?-some [] j h = absurd (omega arith)
  get_elem?-some (x ∷ xs) zero h = (x, refl)
  get_elem?-some (x ∷ xs) (suc j) h = get_elem?-some xs j (omega arith)

abbrev pub contains : List ℕ → ℕ → Bool
contains [] i = false
contains (x ∷ xs) i = i == x || contains xs i

pub List-cases {ℓ} :
    {A : Type ℓ} (xs : List A) → (xs ≡ []) ⊎ ((x : A) × (ys : List A) × (xs ≡ x ∷ ys))
List-cases [] = inl refl
List-cases (x ∷ ys) = inr (x, ys, refl)

module _ {ℓ} {A : Type ℓ} where
  pub set_self : (xs : List A) (i : ℕ) (a : A) → get_elem? xs i ≡ some a → set xs i a ≡ xs
  set_self [] i a h = refl
  set_self (x ∷ xs) zero a h = ground arith
  set_self (x ∷ xs) (suc i) a h = ap (λ ys. x ∷ ys) (set_self xs i a h)

  pub set-set : (xs : List A) (i : ℕ) (a b : A) → set (set xs i a) i b ≡ set xs i b
  set-set [] i a b = refl
  set-set (x ∷ xs) zero a b = refl
  set-set (x ∷ xs) (suc i) a b = ap (λ ys. x ∷ ys) (set-set xs i a b)

  pub get_elem?-set_here :
      (xs : List A) (i : ℕ) (a b : A) → get_elem? xs i ≡ some a → get_elem? (set xs i b) i ≡ some b
  get_elem?-set_here xs i a b h = ground (arith, get_elem?-set xs i i b, get_elem?-lt xs i a h)
