-- ===== src/Malloc/Round/Least.antt =====
-- src/malloc.cpp: `round_pow2` finds the least power of two that is at least its argument.
use Prim.Native.Nat.{bit_or}
use native.Mathlib.Nat.{le_refl, pow-suc, pow-le-pow_right}
use enoki_jit.Prelude.{
  ℕ, zero, suc, ◌+◌, ◌-◌, ◌*◌, ◌/◌, ◌%◌, ◌^◌, ◌≤◌, ◌<◌, max, ◌≡◌, refl, ◌∙◌, sym, ap, ◌≢◌, ◌⊎◌, inl,
  inr, subst, arith, ltb, Bool-cases,
}
use enoki_jit.Bits.{bit_or_step, div-pow}
use enoki_jit.Malloc.Round.{smear, smear_32, smear_64, round_pow2}

-- Whether one of the `w` lowest digits is set, as a number.
abbrev ored : ℕ → ℕ → ℕ
ored zero y = 0
ored (suc w) y = max (y % 2) (ored w (y / 2))

max_assoc : (a b c : ℕ) → max a (max b c) ≡ max (max a b) c
max_assoc a b c = omega arith

div_one : (y : ℕ) → y / 1 ≡ y
div_one y = omega arith

halves : (x k : ℕ) → x / 2 ^ k / 2 ≡ x / 2 / 2 ^ k
halves x zero = omega arith
halves x (suc k) = rw (div-pow x k, halves (x / 2) k, div-pow (x / 2) k)

ored-add : (m n y : ℕ) → ored (m + n) y ≡ max (ored m y) (ored n (y / 2 ^ m))
ored-add zero n y = ground (arith, div_one y)
ored-add (suc m) n y =
    let e : suc m + n ≡ suc (m + n) = omega arith in
    rw (e, ored-add m n (y / 2), div-pow y m) (max_assoc (y % 2) _ _)

ored-zero : (w y : ℕ) → ored w y ≡ 0 → y < 2 ^ w → y ≡ 0
ored-zero zero y e h = omega arith
ored-zero (suc w) y e h =
    omega (arith, ored-zero w (y / 2) (omega arith) (omega (arith, pow-suc 2 w)))

ored-le : (w y : ℕ) → ored w y ≤ 1
ored-le zero y = omega arith
ored-le (suc w) y = omega (arith, ored-le w (y / 2))

-- `f` works digit by digit upwards, and its lowest digit joins the `w` lowest ones.
record Joins (f : ℕ → ℕ) (w : ℕ) : Type 0 where
  half : (y : ℕ) → f y / 2 ≡ f (y / 2)
  low : (y : ℕ) → f y % 2 ≡ ored w y

or-half : (x y : ℕ) → bit_or x y / 2 ≡ bit_or (x / 2) (y / 2)
or-half x y = omega (arith, bit_or_step x y)

or-low : (x y : ℕ) → bit_or x y % 2 ≡ max (x % 2) (y % 2)
or-low x y = omega (arith, bit_or_step x y)

module _ (f : ℕ → ℕ) (w : ℕ) (j : Joins f w) where
  Joins-shift : (k y : ℕ) → f y / 2 ^ k ≡ f (y / 2 ^ k)
  Joins-shift zero y = ap (λ x. x) (div_one (f y) ∙ ap f (sym (div_one y)))
  Joins-shift (suc k) y = rw (div-pow (f y) k, j.half y, Joins-shift k (y / 2), div-pow y k)

  smear-Joins : Joins (λ y. smear w (f y)) (w + w)
  unfolding smear
  smear-Joins = record {
    half = λ y. rw (or-half (f y) (f y / 2 ^ w), halves (f y) w, j.half y);
    low = λ y.
        rw
          (or-low (f y) (f y / 2 ^ w), Joins-shift w y, j.low y, j.low (y / 2 ^ w), ored-add w w y);
  }

identity-Joins : Joins (λ y. y) 1
identity-Joins = record { half = λ y. refl; low = λ y. omega arith }

smear_32-Joins : Joins smear_32 32
unfolding smear_32
smear_32-Joins =
    smear-Joins _ 16
      (smear-Joins _ 8 (smear-Joins _ 4 (smear-Joins _ 2 (smear-Joins _ 1 identity-Joins))))

smear_64-Joins : Joins smear_64 64
unfolding smear_64
smear_64-Joins = smear-Joins _ 32 smear_32-Joins

-- `r` is the power of two that is at least `y + 1` and at most twice `y`.
abbrev Fits : ℕ → ℕ → Type 0
Fits y r = (k : ℕ) × (r ≡ 2 ^ suc k) × (2 ^ k ≤ y) × (y < 2 ^ suc k)

module _ (f : ℕ → ℕ) (w : ℕ) (j : Joins f w) where
  fixed-zero : (a : ℕ) → a / 2 ≡ a → a ≡ 0
  fixed-zero a h = omega arith

  Joins-zero : f 0 ≡ 0
  Joins-zero = fixed-zero (f 0) (j.half 0)

  Joins-step : (y : ℕ) → y ≢ 0 → y < 2 ^ w → f y ≡ 2 * f (y / 2) + 1
  Joins-step y n h =
      let some_digit : ored w y ≢ 0 = λ e. n (ored-zero w y e h) in
      let low : f y % 2 ≡ 1 = omega (arith, j.low y, ored-le w y, some_digit) in
      omega (arith, j.half y)

  Joins-Fits : (n y : ℕ) → y ≤ n → y ≢ 0 → y < 2 ^ w → Fits y (f y + 1)
  Joins-Fits zero y b n h = absurd (omega arith)
  Joins-Fits (suc m) zero b n h = absurd (n refl)
  Joins-Fits (suc m) (suc zero) b n h =
      (0, omega (arith, Joins-step 1 n h, Joins-zero), omega arith, omega arith)
  Joins-Fits (suc m) (suc (suc y)) b n h =
      let (k, e, lo, hi) =
        Joins-Fits m (suc (suc y) / 2) (omega arith) (λ z. omega arith) (omega arith) in
      (
        suc k,
        omega (arith, Joins-step (suc (suc y)) n h, pow-suc 2 (suc k)),
        omega (arith, pow-suc 2 k),
        omega (arith, pow-suc 2 (suc k)),
      )

-- `r` is the least power of two that is at least `x`.
abbrev pub IsRounded : ℕ → ℕ → Type 0
IsRounded x r = (k : ℕ) × (r ≡ 2 ^ k) × (x ≤ r) × (r < 2 * x)

module _ (f : ℕ → ℕ) (w : ℕ) (j : Joins f w) where
  Joins-IsRounded : (y : ℕ) → y < 2 ^ w → IsRounded (suc y) (f y + 1)
  Joins-IsRounded zero h = (
    0,
    omega (arith, Joins-zero f w j),
    omega (arith, Joins-zero f w j),
    omega (arith, Joins-zero f w j),
  )
  Joins-IsRounded (suc y) h =
      let (k, e, lo, hi) =
        Joins-Fits f w j (suc y) (suc y) (le_refl (suc y)) (λ z. omega arith) h in
      (suc k, e, omega arith, omega (arith, pow-suc 2 k))

nat_cases : (a b : ℕ) → (suc a ≤ b) ⊎ ((a ≡ b) ⊎ (suc b ≤ a))
nat_cases a b = ground arith

pow_mono : (i j : ℕ) → i ≤ j → 2 ^ i ≤ 2 ^ j
pow_mono i j h = pow-le-pow_right (omega arith) h

same_power : (w k : ℕ) → 2 ^ w < 2 * 2 ^ k → 2 ^ k < 2 * 2 ^ w → 2 ^ k ≡ 2 ^ w
same_power w k a b = elim (nat_cases k w) [
  | inl below ↦ absurd (omega (arith, pow-suc 2 k, pow_mono (suc k) w below))
  | inr (inl same) ↦ ap (λ n. 2 ^ n) same
  | inr (inr above) ↦ absurd (omega (arith, pow-suc 2 w, pow_mono (suc w) k above))
]

keep_small : (y r : ℕ) → y < 2 ^ 63 → IsRounded (suc y) r → IsRounded (suc y) (r % 2 ^ 64)
keep_small y r h (k, e, lo, hi) = let same : r % 2 ^ 64 ≡ r = omega arith in rw same (k, e, lo, hi)

wrap_large : (y r : ℕ) → 2 ^ 63 ≤ y → y < 2 ^ 64 → IsRounded (suc y) r → r % 2 ^ 64 ≡ 0
wrap_large y r a b (k, e, lo, hi) =
    let top : 2 ^ k ≡ 2 ^ 64 = same_power 64 k (omega arith) (omega arith) in rw (e, top)

round_pow2-smear : (y : ℕ) → y < 2 ^ 64 → round_pow2 ((y + 1) % 2 ^ 64) ≡ (smear_64 y + 1) % 2 ^ 64
unfolding round_pow2
round_pow2-smear y h =
    let back : ((y + 1) % 2 ^ 64 + (2 ^ 64 - 1)) % 2 ^ 64 ≡ y = omega arith in rw back

-- For 1 ≤ x ≤ 2 ^ 63, `round_pow2` is the least power of two that is at least `x`; it is 0 for
-- other words.
pub round_pow2_least :
    (x : ℕ)
    → x < 2 ^ 64
    → (1 ≤ x) × (x ≤ 2 ^ 63) × IsRounded x (round_pow2 x)
      ⊎ ((x ≡ 0) ⊎ (2 ^ 63 < x)) × (round_pow2 x ≡ 0)
round_pow2_least zero h = inr (
  inl refl,
  round_pow2-smear (2 ^ 64 - 1) (omega arith)
      ∙ wrap_large (2 ^ 64 - 1) _ (omega arith) (omega arith)
          (Joins-IsRounded smear_64 64 smear_64-Joins (2 ^ 64 - 1) (omega arith)),
)
round_pow2_least (suc y) h =
    let rounded : IsRounded (suc y) (smear_64 y + 1) =
      Joins-IsRounded smear_64 64 smear_64-Joins y (omega arith) in
    let back : (y + 1) % 2 ^ 64 ≡ suc y = omega arith in
    let run : round_pow2 (suc y) ≡ (smear_64 y + 1) % 2 ^ 64 =
      subst (λ x. round_pow2 x ≡ (smear_64 y + 1) % 2 ^ 64) back
        (round_pow2-smear y (omega arith)) in
    elim (Bool-cases (ltb y (2 ^ 63))) [
      | inl small ↦ inl (
        omega arith,
        ground arith,
        subst (IsRounded (suc y)) (sym run) (keep_small y _ (ground arith) rounded),
      )
      | inr large ↦
          inr (inr (ground arith), run ∙ wrap_large y _ (ground arith) (omega arith) rounded)
    ]
