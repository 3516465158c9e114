-- ===== src/StringBuffer.antt =====
-- src/strbuf.cpp and src/strbuf.h: a text that grows, in a buffer of a capacity. The text is what
-- stands between `m_start` and `m_cur`; a capacity of 0 stands for null pointers. Bytes behind the
-- text are not kept. A write behind the end of the buffer is a failure.
pub mod Room
pub mod Numbers
pub mod Names
pub mod Format
pub mod Cuda
pub mod Llvm
pub mod Moves
pub mod Fmt
use enoki_jit.Prelude.{
  ℕ, zero, suc, ◌+◌, ◌-◌, ◌*◌, Bool, true, false, ◌||◌, Option, none, some, List, [], ◌∷◌, ◌++◌,
  length, take, drop, repeat, rev, ltb, leb, ◌==◌, if◌then◌else◌,
}
use enoki_jit.Prelude.Result.{Result, ok, err, fail, ◌>>=◌}

pub record StringBuffer : Type 0 where
  pub text : List ℕ
  pub capacity : ℕ

-- The constructor.
abbrev pub new_buffer : ℕ → StringBuffer
new_buffer capacity = record { text = []; capacity = capacity }

-- `new_capacity *= 2` until `needed` bytes fit.
unfoldable pub grow : ℕ → ℕ → ℕ → ℕ
grow zero needed capacity = capacity
grow (suc fuel) needed capacity = elim (ltb capacity needed) [
  | true ↦ grow fuel needed (capacity * 2)
  | false ↦ capacity
]

-- One byte more than asked for, for the trailing zero. Each round doubles at least 1.
unfoldable pub expand : ℕ → StringBuffer → StringBuffer
unfolding grow
expand n b =
    let needed = length b.text + (n + 1) in
    record b { capacity = grow needed needed (if b.capacity == 0 then 1 else b.capacity) }

-- `!m_cur || m_cur + n >= m_end`
unfoldable pub lacks_room : ℕ → StringBuffer → Bool
lacks_room n b = leb b.capacity (length b.text + n)

unfoldable pub make_room : ℕ → StringBuffer → StringBuffer
unfolding lacks_room expand
make_room n b = if lacks_room n b then expand n b else b

-- `put_unchecked`: writes at the end of the text.
unfoldable pub put_unchecked : List ℕ → StringBuffer → Result StringBuffer
put_unchecked str b =
    if leb (length b.text + length str) b.capacity
    then ok (record b { text = b.text ++ str })
    else err fail

-- `*m_cur = '\0'`
unfoldable pub terminate : StringBuffer → Result StringBuffer
terminate b = if ltb (length b.text) b.capacity then ok b else err fail

unfoldable pub put : List ℕ → StringBuffer → Result StringBuffer
unfolding make_room put_unchecked terminate
put str b = do b1 ← put_unchecked str (make_room (length str) b); terminate b1

-- The overload for copies of a character.
unfoldable pub put_copies : ℕ → ℕ → StringBuffer → Result StringBuffer
unfolding make_room put_unchecked terminate
put_copies c count b = do b1 ← put_unchecked (repeat count c) (make_room count b); terminate b1

unfoldable pub clear : StringBuffer → StringBuffer
clear b = record b { text = [] }

-- A position behind the text would show bytes that were never written.
unfoldable pub rewind_to : ℕ → StringBuffer → Result StringBuffer
rewind_to pos b =
    if leb pos (length b.text) then ok (record b { text = take pos b.text }) else err fail

-- The text from its back, without spaces and commas at the front.
unfoldable pub drop_commas : List ℕ → List ℕ
drop_commas [] = []
drop_commas (c ∷ cs) = elim (c == b',' || c == b' ') [ true ↦ drop_commas cs | false ↦ c ∷ cs ]

unfoldable pub delete_trailing_commas : StringBuffer → StringBuffer
unfolding drop_commas
delete_trailing_commas b = record b { text = rev (drop_commas (rev b.text)) }

-- `memmove` of `n` bytes inside the text, from `src` to `dst`.
unfoldable pub move_block : ℕ → ℕ → ℕ → List ℕ → List ℕ
move_block dst src n text = take dst text ++ take n (drop src text) ++ drop (dst + n) text

unfoldable pub move_suffix : ℕ → ℕ → StringBuffer → Result StringBuffer
unfolding put_copies move_block rewind_to
move_suffix suffix_start suffix_target b =
    let buffer_size = length b.text in
    let suffix_size = buffer_size - suffix_start in
    do
      b1 ← put_copies 0 suffix_size b
      let moved =
          move_block (suffix_target + suffix_size) suffix_target (buffer_size - suffix_target)
            b1.text
      rewind_to buffer_size
          (record b1 { text = move_block suffix_target buffer_size suffix_size moved })

-- `fmt` and `vfmt`; `printed` is what `vsnprintf` makes of the arguments, or none for a negative
-- result, and the number that is returned is its length. The loop tries again after growing.
unfoldable pub fmt : ℕ → Option (List ℕ) → StringBuffer → Result (ℕ × StringBuffer)
unfolding lacks_room expand
fmt zero printed b = err fail
fmt (suc fuel) none b = err fail
fmt (suc fuel) (some str) b = elim (lacks_room (length str) b) [
  | false ↦ ok (length str, record b { text = b.text ++ str })
  | true ↦ fmt fuel (some str) (expand (length str) b)
]

-- `swap`, `operator=`.
abbrev pub swap : StringBuffer → StringBuffer → StringBuffer × StringBuffer
swap a b = (b, a)
