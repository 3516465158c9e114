-- ===== src/StringBuffer/Numbers.antt =====
-- src/strbuf.cpp: numbers in base 10 and 16. The digits are written from the last one on and then
-- turned around in place.
pub mod Reverse
pub mod Printed
use enoki_jit.Prelude.{
  ℕ, zero, suc, ◌+◌, ◌-◌, ◌/◌, ◌%◌, Bool, true, false, Option, none, some, List, [], ◌∷◌, ◌++◌,
  length, get_elem?, set, ltb, ◌==◌, if◌then◌else◌,
}
use enoki_jit.Prelude.Result.{Result, ok, err, fail, ◌>>=◌}
use enoki_jit.StringBuffer.{StringBuffer, make_room, put_unchecked, terminate}

-- The table `num`.
unfoldable pub num : ℕ → ℕ
num d = if ltb d 10 then 48 + d else 87 + d

-- The loop of the `put_*_unchecked` functions, which writes at least one digit.
unfoldable pub put_digits : ℕ → ℕ → ℕ → StringBuffer → Result StringBuffer
unfolding num
put_digits base zero value b = err fail
put_digits base (suc fuel) value b = do
  b1 ← put_unchecked (num (value % base) ∷ []) b
  elim (value / base == 0) [ true ↦ ok b1 | false ↦ put_digits base fuel (value / base) b1 ]

unfoldable pub swap_at : ℕ → ℕ → List ℕ → List ℕ
swap_at start last text = elim (get_elem? text start) [
  | none ↦ text
  | some a ↦ elim (get_elem? text last) [ none ↦ text | some b ↦ set (set text start b) last a ]
]

unfoldable pub swap_ends : ℕ → ℕ → ℕ → List ℕ → List ℕ
unfolding swap_at
swap_ends zero start last text = text
swap_ends (suc fuel) start last text = elim (ltb start last) [
  | true ↦ swap_ends fuel (start + 1) (last - 1) (swap_at start last text)
  | false ↦ text
]

-- From `start` up to the end of the text.
unfoldable pub reverse_str : ℕ → List ℕ → List ℕ
unfolding swap_ends
reverse_str start text = swap_ends (length text) start (length text - 1) text

-- The digits of a word: 64 binary digits at most, so that 64 rounds are enough.
unfoldable pub put_number_unchecked : ℕ → ℕ → StringBuffer → Result StringBuffer
unfolding put_digits reverse_str
put_number_unchecked base value b = do
  b1 ← put_digits base 64 value b
  ok (record b1 { text = reverse_str (length b.text) b1.text })

abbrev pub put_u32_unchecked : ℕ → StringBuffer → Result StringBuffer
put_u32_unchecked = put_number_unchecked 10

abbrev pub put_u64_unchecked : ℕ → StringBuffer → Result StringBuffer
put_u64_unchecked = put_number_unchecked 10

abbrev pub put_x32_unchecked : ℕ → StringBuffer → Result StringBuffer
put_x32_unchecked = put_number_unchecked 16

abbrev pub put_x64_unchecked : ℕ → StringBuffer → Result StringBuffer
put_x64_unchecked = put_number_unchecked 16

-- The digits of `put_q64_unchecked`, which writes them at their places from the last one on.
unfoldable pub filled_digits : ℕ → ℕ → List ℕ
unfolding num
filled_digits zero value = []
filled_digits (suc n) value = filled_digits n (value / 16) ++ num (value % 16) ∷ []

unfoldable pub put_q64_unchecked : ℕ → StringBuffer → Result StringBuffer
unfolding filled_digits
put_q64_unchecked value b = put_unchecked (filled_digits 16 value) b

-- `MAXSIZE_U32` and its siblings.
abbrev pub maxsize_u32 : ℕ
maxsize_u32 = 10

abbrev pub maxsize_u64 : ℕ
maxsize_u64 = 20

abbrev pub maxsize_x32 : ℕ
maxsize_x32 = 8

abbrev pub maxsize_x64 : ℕ
maxsize_x64 = 16

unfoldable pub put_u32 : ℕ → StringBuffer → Result StringBuffer
put_u32 value b = put_u32_unchecked value (make_room maxsize_u32 b)

unfoldable pub put_u64 : ℕ → StringBuffer → Result StringBuffer
put_u64 value b = put_u64_unchecked value (make_room maxsize_u64 b)

unfoldable pub put_x32 : ℕ → StringBuffer → Result StringBuffer
put_x32 value b = put_x32_unchecked value (make_room maxsize_x32 b)

unfoldable pub put_x64 : ℕ → StringBuffer → Result StringBuffer
put_x64 value b = put_x64_unchecked value (make_room maxsize_x64 b)
