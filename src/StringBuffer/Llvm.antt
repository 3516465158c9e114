-- ===== src/StringBuffer/Llvm.antt =====
-- src/strbuf.cpp: `fmt_llvm`. As in `fmt_cuda`, its first phase adds up a length and the second one
-- writes without further tests; `{a|b}` and `{a}` choose by the kind of pointers.
pub mod Write
use enoki_jit.Prelude.{
  ℕ, ◌+◌, ◌*◌, ◌/◌, ◌%◌, ◌^◌, Bool, true, false, Option, none, some, List, [], ◌∷◌, ◌++◌, length,
  codes, ltb, ◌==◌, if◌then◌else◌,
}
use enoki_jit.Prelude.Result.{Result, ok, err, fail, ◌>>=◌}
use enoki_jit.Types.{VarType, type_size, is_bool}
use enoki_jit.StringBuffer.{StringBuffer, make_room, put_unchecked, put, rewind_to, terminate}
use enoki_jit.StringBuffer.Numbers.{
  put_u32_unchecked, put_u64_unchecked, put_x32_unchecked, put_x64_unchecked, put_q64_unchecked,
}
use enoki_jit.StringBuffer.Names.{
  type_name_llvm, type_name_llvm_big, type_name_llvm_abbrev, type_name_llvm_bin, type_prefix,
}
use enoki_jit.StringBuffer.Format.{Operand, Arg, number, text, var, Piece, plain, dollar, pieces}

-- The global variables that the formatting reads, and the conversion of a float's bits to a double's
-- (from Float16 or Float32; the floats of the language and `drjit::half`).
pub record Target : Type 0 where
  pub jitc_llvm_vector_width : ℕ
  pub jitc_llvm_opaque_pointers : Bool
  pub jitc_llvm_version_major : ℕ
  pub callable_depth : ℕ
  pub to_double : VarType → ℕ → ℕ

-- The letters behind a `$`; a capital one ends in `_big`.
pub data Numeral : Type 0 where
  u u_big x x_big q_big : Numeral

pub data Field : Type 0 where
  t t_big d d_big b b_big m m_big p p_big h h_big v v_big l a a_big o : Field

pub data Global : Type 0 where
  left_brace right_brace w z e opens closes : Global

pub data Letter : Type 0 where
  of_numeral : Numeral → Letter
  of_string : Letter
  of_field : Field → Letter
  of_global : Global → Letter

unfoldable pub letter_of : ℕ → Option Letter
letter_of c =
    if c == b'{'
    then some (of_global Global.left_brace)
    else if c == b'}'
    then some (of_global Global.right_brace)
    else if c == b'u'
    then some (of_numeral Numeral.u)
    else if c == b'U'
    then some (of_numeral Numeral.u_big)
    else if c == b'x'
    then some (of_numeral Numeral.x)
    else if c == b'Q'
    then some (of_numeral Numeral.q_big)
    else if c == b'X'
    then some (of_numeral Numeral.x_big)
    else if c == b's'
    then some of_string
    else if c == b'w'
    then some (of_global Global.w)
    else if c == b't'
    then some (of_field Field.t)
    else if c == b'd'
    then some (of_field Field.d)
    else if c == b'b'
    then some (of_field Field.b)
    else if c == b'm'
    then some (of_field Field.m)
    else if c == b'p'
    then some (of_field Field.p)
    else if c == b'h'
    then some (of_field Field.h)
    else if c == b'H'
    then some (of_field Field.h_big)
    else if c == b'T'
    then some (of_field Field.t_big)
    else if c == b'D'
    then some (of_field Field.d_big)
    else if c == b'B'
    then some (of_field Field.b_big)
    else if c == b'M'
    then some (of_field Field.m_big)
    else if c == b'P'
    then some (of_field Field.p_big)
    else if c == b'v'
    then some (of_field Field.v)
    else if c == b'V'
    then some (of_field Field.v_big)
    else if c == b'l'
    then some (of_field Field.l)
    else if c == b'a'
    then some (of_field Field.a)
    else if c == b'A'
    then some (of_field Field.a_big)
    else if c == b'o'
    then some (of_field Field.o)
    else if c == b'z'
    then some (of_global Global.z)
    else if c == b'e'
    then some (of_global Global.e)
    else if c == b'<'
    then some (of_global Global.opens)
    else if c == b'>'
    then some (of_global Global.closes)
    else none

-- A letter with its argument, if it takes one.
pub data Order : Type 0 where
  put_numeral : Numeral → ℕ → Order
  put_string : List ℕ → Order
  put_field : Field → Operand → Order
  put_global : Global → Order

-- The arguments of another type than the letter's are undefined behaviour.
unfoldable pub take_arg : Letter → List Arg → Option (Order × List Arg)
take_arg (of_global g) args = some (put_global g, args)
take_arg (of_numeral k) (number n ∷ args) = some (put_numeral k n, args)
take_arg of_string (text str ∷ args) = some (put_string str, args)
take_arg (of_field k) (var entry ∷ args) = some (put_field k entry, args)
take_arg _ _ = none

unfoldable pub next_order : ℕ → List Arg → Option (Order × List Arg)
unfolding letter_of take_arg
next_order c args = elim (letter_of c) [ none ↦ none | some letter ↦ take_arg letter args ]

-- Phase 1: what an order adds to `len`.
unfoldable pub share : Order → ℕ
share (put_numeral Numeral.u _) = 10
share (put_numeral Numeral.u_big _) = 20
share (put_numeral Numeral.x _) = 8
share (put_numeral Numeral.x_big _) = 16
share (put_numeral Numeral.q_big _) = 16
share (put_string str) = length str
share (put_field Field.t _) = 6
share (put_field Field.d _) = 6
share (put_field Field.b _) = 6
share (put_field Field.m _) = 6
share (put_field Field.p _) = 6 + 1
share (put_field Field.h _) = 3
share (put_field Field.h_big _) = 3
share (put_field Field.t_big _) = 10 + 6 + 5
share (put_field Field.d_big _) = 10 + 6 + 5
share (put_field Field.b_big _) = 10 + 6 + 5
share (put_field Field.m_big _) = 10 + 6 + 5
share (put_field Field.p_big _) = 10 + 6 + 6
share (put_field Field.v _) = 10 + 3
share (put_field Field.v_big _) = 2 * 10 + 3 + 6
share (put_field Field.l _) = 16 + 2
share (put_field Field.a _) = 10
share (put_field Field.a_big _) = 10
share (put_field Field.o _) = 10
share (put_global Global.left_brace) = 1
share (put_global Global.right_brace) = 1
share (put_global Global.w) = 10
share (put_global Global.z) = 15
share (put_global Global.e) = 13
share (put_global Global.opens) = 10 + 4
share (put_global Global.closes) = 1

-- The length and the arguments that are left over.
unfoldable pub total_length : List Piece → List Arg → Result (ℕ × List Arg)
unfolding share next_order
total_length [] args = ok (0, args)
total_length (plain ch ∷ ps) args = do (n, rest) ← total_length ps args; ok (1 + n, rest)
total_length (dollar c ∷ ps) args = elim (next_order c args) [
  | none ↦ err fail
  | some (what, others) ↦ do (n, rest) ← total_length ps others; ok (share what + n, rest)
]
