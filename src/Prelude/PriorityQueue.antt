-- ===== src/Prelude/PriorityQueue.antt =====
-- `std::priority_queue<uint32_t, …, std::greater<uint32_t>>` as an ascending list: `top` is the
-- head, `pop` drops it, and `push` inserts in order.
use Prim.Native.Nat.{ℕ, suc, ◌≤◌, ◌<◌}
use mathlib.Core.Path.{◌≡◌, refl}
use mathlib.Core.Bool.{false, ◌||◌}
use mathlib.Core.List.{List, [], ◌∷◌}
use native.Mathlib.Omega.{arith}
use enoki_jit.Prelude.Tests.{ltb, ◌==◌, if◌then◌else◌}
use enoki_jit.Prelude.Lists.{contains}

unfoldable pub pq_push : ℕ → List ℕ → List ℕ
pq_push i [] = i ∷ []
pq_push i (x ∷ xs) = if ltb x i then x ∷ pq_push i xs else i ∷ x ∷ xs

-- Strictly ascending, all at least `n`.
abbrev pub Ascends : ℕ → List ℕ → Type 0
Ascends n [] = Unit {0}
Ascends n (x ∷ xs) = (n ≤ x) × Ascends (suc x) xs

pub Ascends-mono : (m n : ℕ) (xs : List ℕ) → m ≤ n → Ascends n xs → Ascends m xs
Ascends-mono m n [] h a = tt
Ascends-mono m n (x ∷ xs) h a = (omega arith, a.1)

pub contains_below : (n i : ℕ) (xs : List ℕ) → Ascends n xs → i < n → contains xs i ≡ false
contains_below n i [] a h = refl
contains_below n i (x ∷ xs) a h = ground (arith, contains_below (suc x) i xs a.1)

pub pq_push-contains :
    (i j : ℕ) (xs : List ℕ) → contains (pq_push i xs) j ≡ (j == i || contains xs j)
unfolding pq_push
pq_push-contains i j [] = refl
pq_push-contains i j (x ∷ xs) = ground (arith, pq_push-contains i j xs)

pub pq_push-Ascends :
    (n i : ℕ) (xs : List ℕ)
    → Ascends n xs
    → n ≤ i
    → contains xs i ≡ false
    → Ascends n (pq_push i xs)
unfolding pq_push
pq_push-Ascends n i [] a h c = (h, tt)
pq_push-Ascends n i (x ∷ xs) a h c = ground (arith, pq_push-Ascends (suc x) i xs a.1)
