-- ===== src/StringBuffer/Cuda.antt =====
-- src/strbuf.cpp: `fmt_cuda`. Its first phase adds up the length that the output may have, the second
-- one writes it without further tests.
pub mod Emitted
pub mod Safe
use enoki_jit.Prelude.{
  ℕ, ◌+◌, ◌%◌, ◌^◌, Bool, Option, none, some, List, [], ◌∷◌, length, codes, ◌==◌, if◌then◌else◌,
}
use enoki_jit.Prelude.Result.{Result, ok, err, fail, ◌>>=◌}
use enoki_jit.Types.{type_size, is_bool}
use enoki_jit.StringBuffer.{
  StringBuffer, lacks_room, expand, make_room, put_unchecked, put, terminate,
}
use enoki_jit.StringBuffer.Numbers.{
  put_u32_unchecked, put_u64_unchecked, put_x32_unchecked, put_x64_unchecked, put_q64_unchecked,
}
use enoki_jit.StringBuffer.Names.{type_name_ptx, type_name_ptx_bin, type_name_ptx_bin2, type_prefix}
use enoki_jit.StringBuffer.Format.{Operand, Arg, number, text, var, Piece, plain, dollar, pieces}

-- The letters behind a `$`, by the type of their argument; a capital one ends in `_big`.
pub data NumberCode : Type 0 where
  u u_big x x_big q_big c : NumberCode

pub data OperandCode : Type 0 where
  b b_big t v v_big a l o : OperandCode

pub data Code : Type 0 where
  of_number : NumberCode → Code
  of_text : Code
  of_operand : OperandCode → Code

unfoldable pub code_of : ℕ → Option Code
code_of d =
    if d == b'u'
    then some (of_number NumberCode.u)
    else if d == b'U'
    then some (of_number NumberCode.u_big)
    else if d == b'x'
    then some (of_number NumberCode.x)
    else if d == b'Q'
    then some (of_number NumberCode.q_big)
    else if d == b'X'
    then some (of_number NumberCode.x_big)
    else if d == b'c'
    then some (of_number NumberCode.c)
    else if d == b's'
    then some of_text
    else if d == b'B'
    then some (of_operand OperandCode.b_big)
    else if d == b'b'
    then some (of_operand OperandCode.b)
    else if d == b't'
    then some (of_operand OperandCode.t)
    else if d == b'v'
    then some (of_operand OperandCode.v)
    else if d == b'V'
    then some (of_operand OperandCode.v_big)
    else if d == b'a'
    then some (of_operand OperandCode.a)
    else if d == b'l'
    then some (of_operand OperandCode.l)
    else if d == b'o'
    then some (of_operand OperandCode.o)
    else none

-- A directive with its argument.
pub data Directive : Type 0 where
  put_number : NumberCode → ℕ → Directive
  put_text : List ℕ → Directive
  put_operand : OperandCode → Operand → Directive

-- `va_arg`; an argument of another type is undefined behaviour.
unfoldable pub va_arg : Code → Arg → Option Directive
va_arg (of_number k) (number n) = some (put_number k n)
va_arg of_text (text str) = some (put_text str)
va_arg (of_operand k) (var w) = some (put_operand k w)
va_arg _ _ = none

-- The directive behind a `$` and the arguments that are left.
unfoldable pub next_directive : ℕ → List Arg → Option (Directive × List Arg)
unfolding code_of va_arg
next_directive d [] = none
next_directive d (arg ∷ args) = elim (code_of d) [
  | none ↦ none
  | some code ↦ elim (va_arg code arg) [ none ↦ none | some what ↦ some (what, args) ]
]

-- Phase 1: what a directive adds to `len`.
unfoldable pub cost : Directive → ℕ
cost (put_number NumberCode.u n) = 10
cost (put_number NumberCode.u_big n) = 20
cost (put_number NumberCode.x n) = 8
cost (put_number NumberCode.x_big n) = 16
cost (put_number NumberCode.q_big n) = 16
cost (put_number NumberCode.c n) = 1
cost (put_text str) = length str
cost (put_operand OperandCode.b w) = 6
cost (put_operand OperandCode.b_big w) = 6
cost (put_operand OperandCode.t w) = 6
cost (put_operand OperandCode.v w) = 10 + 3
cost (put_operand OperandCode.v_big w) = 10 + 3
cost (put_operand OperandCode.a w) = 10
cost (put_operand OperandCode.l w) = 16 + 2
cost (put_operand OperandCode.o w) = 10

-- The length and the arguments that are left over.
unfoldable pub measure : List Piece → List Arg → Result (ℕ × List Arg)
unfolding cost
measure [] args = ok (0, args)
measure (plain ch ∷ ps) args = do (n, rest) ← measure ps args; ok (1 + n, rest)
measure (dollar d ∷ ps) args = elim (next_directive d args) [
  | none ↦ err fail
  | some (what, others) ↦ do (n, rest) ← measure ps others; ok (cost what + n, rest)
]

-- Phase 2. Numbers are read as their C types.
unfoldable pub emit : Directive → StringBuffer → Result StringBuffer
unfolding put_unchecked put
emit (put_number NumberCode.u n) buf = put_u32_unchecked (n % 2 ^ 32) buf
emit (put_number NumberCode.u_big n) buf = put_u64_unchecked (n % 2 ^ 64) buf
emit (put_number NumberCode.x n) buf = put_x32_unchecked (n % 2 ^ 32) buf
emit (put_number NumberCode.x_big n) buf = put_x64_unchecked (n % 2 ^ 64) buf
emit (put_number NumberCode.q_big n) buf = put_q64_unchecked (n % 2 ^ 64) buf
emit (put_number NumberCode.c n) buf = put_unchecked (n % 256 ∷ []) buf
emit (put_text str) buf = put str buf
emit (put_operand OperandCode.t w) buf = put_unchecked (type_name_ptx w.type) buf
emit (put_operand OperandCode.b_big w) buf = put_unchecked (type_name_ptx_bin2 w.type) buf
emit (put_operand OperandCode.b w) buf = put_unchecked (type_name_ptx_bin w.type) buf
emit (put_operand OperandCode.v_big w) buf =
    if is_bool w.type
    then put_unchecked (codes "%w0") buf
    else (do b1 ← put_unchecked (type_prefix w.type) buf; put_u32_unchecked w.reg_index b1)
emit (put_operand OperandCode.v w) buf = do
  b1 ← put_unchecked (type_prefix w.type) buf
  put_u32_unchecked w.reg_index b1
emit (put_operand OperandCode.l w) buf = do
  b1 ← put_unchecked (codes "0x") buf
  put_x64_unchecked w.literal b1
emit (put_operand OperandCode.a w) buf = put_u32_unchecked (type_size w.type) buf
emit (put_operand OperandCode.o w) buf = put_u32_unchecked w.param_offset buf

unfoldable pub convert : List Piece → List Arg → StringBuffer → Result StringBuffer
unfolding emit
convert [] args buf = ok buf
convert (plain ch ∷ ps) args buf = do b1 ← put_unchecked (ch ∷ []) buf; convert ps args b1
convert (dollar d ∷ ps) args buf = elim (next_directive d args) [
  | none ↦ err fail
  | some (what, others) ↦ do b1 ← emit what buf; convert ps others b1
]

-- All arguments must be read.
unfoldable pub fmt_cuda : List ℕ → List Arg → StringBuffer → Result StringBuffer
unfolding pieces measure convert make_room terminate
fmt_cuda fmt args buf = do
  (len, rest) ← measure (pieces fmt) args
  elim rest [
    | [] ↦ do b1 ← convert (pieces fmt) args (make_room len buf); terminate b1
    | _ ↦ err fail
  ]
