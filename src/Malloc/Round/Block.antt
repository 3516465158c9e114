-- ===== src/Malloc/Round/Block.antt =====
-- src/malloc.cpp: the size that `jitc_malloc` asks for is a power of two that is large enough.
use native.Mathlib.Nat.{div-add-mod', mod-lt}
use enoki_jit.Prelude.{
  ℕ, ◌+◌, ◌-◌, ◌*◌, ◌/◌, ◌%◌, ◌^◌, ◌≤◌, ◌<◌, ◌≡◌, subst, inl, inr, not, ◌||◌, ltb, Bool, false,
  Bool-cases, if_true, if_false, sym, arith,
}
use enoki_jit.Types.{AllocType}
use enoki_jit.Malloc.Info.{is_host, block_size}
use enoki_jit.Malloc.Round.{round_pow2}
use enoki_jit.Malloc.Round.Least.{round_pow2_least}

-- A power of two that holds `size` bytes and fits the packed description.
abbrev pub Holds : ℕ → ℕ → Type 0
Holds size b = (k : ℕ) × (b ≡ 2 ^ k) × (size ≤ b) × (b < 2 ^ 48)

rounds : (size x : ℕ) → 1 ≤ size → size ≤ x → x ≤ 2 ^ 47 → Holds size (round_pow2 x)
rounds size x a b c = elim (round_pow2_least x (omega arith)) [
  | inl (lo, hi, (k, e, f, g)) ↦ (k, e, omega arith, omega arith)
  | inr (inl zero, e) ↦ absurd (omega arith)
  | inr (inr large, e) ↦ absurd (omega arith)
]

multiple :
    (size packet n : ℕ)
    → 1 ≤ packet
    → n ≡ size + packet - 1
    → (size ≤ n / packet * packet) × (n / packet * packet ≤ n)
multiple size packet n a e = (
  omega (arith, div-add-mod' n packet, mod-lt n {m = packet} a),
  omega (arith, div-add-mod' n packet),
)

rounds_up :
    (size packet : ℕ)
    → 1 ≤ size
    → size ≤ 2 ^ 46
    → 1 ≤ packet
    → packet ≤ 2 ^ 46
    → Holds size (round_pow2 ((size + packet - 1) % 2 ^ 64 / packet * packet))
rounds_up size packet a b c d =
    let same : (size + packet - 1) % 2 ^ 64 ≡ size + packet - 1 = omega arith in
    let (lo, hi) = multiple size packet ((size + packet - 1) % 2 ^ 64) c same in
    rounds size _ a lo (omega arith)

add_sub : (size : ℕ) → size + 63 ≡ size + 64 - 1
add_sub size = omega arith

wide : (b : Bool) (vector_width : ℕ) → (b || ltb vector_width 16) ≡ false → 1 ≤ vector_width * 8
wide b vector_width e = ground arith

-- Up to 2 ^ 46 bytes, with vectors of at most 2 ^ 43 lanes.
pub block_size-Holds :
    (vector_width size : ℕ) (type : AllocType)
    → 1 ≤ size
    → size ≤ 2 ^ 46
    → vector_width ≤ 2 ^ 43
    → Holds size (block_size vector_width type size)
unfolding block_size
block_size-Holds vector_width size type a b c =
    let sixty_four =
      subst (λ n. Holds size (round_pow2 (n % 2 ^ 64 / 64 * 64))) (sym (add_sub size))
        (rounds_up size 64 a b (omega arith) (omega arith)) in
    elim (Bool-cases (not (is_host type) || ltb vector_width 16)) [
      | inl e ↦ subst (Holds size) (sym (if_true _ _ e)) sixty_four
      | inr e ↦ subst (Holds size) (sym (if_false _ _ e)) (
          rounds_up size (vector_width * 8) a b (wide (not (is_host type)) vector_width e)
            (omega arith))
    ]
