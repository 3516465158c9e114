-- ===== src/StringBuffer/Llvm/Write/Overrun.antt =====
-- src/strbuf.cpp: what `fmt_llvm` reserves for an integer literal.
use native.Mathlib.Nat.{pow-suc}
use enoki_jit.Prelude.{
  ℕ, zero, suc, ◌+◌, ◌/◌, ◌%◌, ◌^◌, ◌≤◌, ◌≡◌, refl, ◌∙◌, sym, ap, false, [], ◌∷◌, ◌++◌, length,
  ◌==◌, codes, arith, length-append,
}
use enoki_jit.Prelude.Result.{err, fail}
use enoki_jit.Types.{VarType}
use enoki_jit.StringBuffer.{StringBuffer, put_unchecked, make_room, lacks_room}
use enoki_jit.StringBuffer.Room.{put_unchecked-fits}
use enoki_jit.StringBuffer.Numbers.{num, put_digits, put_number_unchecked}
use enoki_jit.StringBuffer.Format.{Operand, var, pieces}
use enoki_jit.StringBuffer.Llvm.{Target, total_length, next_order}
use enoki_jit.StringBuffer.Llvm.Write.{fmt_llvm, write_pieces, put_literal, follow}

quotient_below : (k value : ℕ) → 10 ^ suc k ≤ value → 10 ^ k ≤ value / 10
quotient_below k value h = omega (arith, h, pow-suc 10 k)

one_below : (k : ℕ) → 1 ≤ 10 ^ k
one_below zero = omega arith
one_below (suc k) = omega (arith, one_below k, pow-suc 10 k)

-- Where `k` bytes are free, a number of more than `k` digits overruns the buffer.
put_digits_overrun :
    (fuel k value : ℕ) (b : StringBuffer)
    → 10 ^ k ≤ value
    → length b.text + k ≡ b.capacity
    → put_digits 10 fuel value b ≡ err fail
unfolding put_digits put_unchecked
put_digits_overrun zero k value b h r = refl
put_digits_overrun (suc fuel) zero value b h r = ground arith
put_digits_overrun (suc fuel) (suc k) value b h r =
    let b1 : StringBuffer = record b { text = b.text ++ num (value % 10) ∷ [] } in
    let smaller : 10 ^ k ≤ value / 10 = quotient_below k value h in
    let rest =
      put_digits_overrun fuel k (value / 10) b1 smaller
        (omega (arith, r, length-append b.text (num (value % 10) ∷ []))) in
    let more : (value / 10 == 0) ≡ false = ground (arith, smaller, one_below k) in
    rw (put_unchecked-fits (num (value % 10) ∷ []) b (omega (arith, r)), more) rest

module _ (target : Target) (v : Operand) (t : v.type ≡ VarType.uint64) where
  literal_in_decimal :
      (b : StringBuffer) → put_literal target v b ≡ put_number_unchecked 10 v.literal b
  unfolding put_literal
  literal_in_decimal b = rw t refl

  literal_overrun :
      (b : StringBuffer)
      → 10 ^ 19 ≤ v.literal
      → b.capacity ≡ length b.text + 19
      → put_literal target v (make_room 18 b) ≡ err fail
  unfolding make_room lacks_room put_number_unchecked
  literal_overrun b h r =
      let kept : make_room 18 b ≡ b = ground arith in
      ap (put_literal target v) kept
      ∙ literal_in_decimal b
      ∙ rw (put_digits_overrun 64 19 v.literal b h (sym r)) refl

-- The first phase of `fmt_llvm` reserves 18 bytes for the literal of a variable of an integer type, but
-- the second one writes it in base 10: from 10 ^ 19 on, it writes behind the end of a buffer that has
-- 19 bytes left, which the function does not enlarge.
pub fmt_llvm_overruns :
    (target : Target) (b : StringBuffer) (v : Operand)
    → v.type ≡ VarType.uint64
    → 10 ^ 19 ≤ v.literal
    → b.capacity ≡ length b.text + 19
    → fmt_llvm target (codes "$l") (var v ∷ []) b ≡ err fail
unfolding fmt_llvm write_pieces total_length pieces next_order follow
fmt_llvm_overruns target b v t h r = rw (literal_overrun target v t b h r) refl
