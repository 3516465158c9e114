-- ===== src/StringBuffer/Llvm/Write.antt =====
-- src/strbuf.cpp: the second phase of `fmt_llvm`, and the function as a whole.
pub mod Groups
pub mod Overrun
use enoki_jit.Prelude.{
  ℕ, ◌*◌, ◌/◌, ◌%◌, ◌^◌, Bool, true, false, none, some, List, [], ◌∷◌, ◌++◌, length, codes, ltb,
  ◌==◌, if◌then◌else◌,
}
use enoki_jit.Prelude.Result.{Result, ok, err, fail, ◌>>=◌}
use enoki_jit.Types.{VarType, type_size, is_bool}
use enoki_jit.StringBuffer.{StringBuffer, make_room, put_unchecked, put, rewind_to, terminate}
use enoki_jit.StringBuffer.Numbers.{
  put_u32_unchecked, put_u64_unchecked, put_x32_unchecked, put_x64_unchecked, put_q64_unchecked,
}
use enoki_jit.StringBuffer.Names.{
  type_name_llvm, type_name_llvm_big, type_name_llvm_abbrev, type_name_llvm_bin, type_prefix,
}
use enoki_jit.StringBuffer.Format.{Operand, Arg, Piece, plain, dollar, pieces}
use enoki_jit.StringBuffer.Llvm.{
  Target, Numeral, Field, Global, Order, put_numeral, put_string, put_field, put_global, next_order,
  total_length,
}

-- Phase 2: vectors, pointers, and the type of a Boolean in memory.
module _ (target : Target) where
  unfoldable pub put_lanes : StringBuffer → Result StringBuffer
  unfolding put_unchecked
  put_lanes buf = do
    b1 ← put_unchecked (codes "<") buf
    b2 ← put_u32_unchecked target.jitc_llvm_vector_width b1
    put_unchecked (codes " x ") b2

  unfoldable pub put_vector : List ℕ → StringBuffer → Result StringBuffer
  unfolding put_unchecked put_lanes
  put_vector name buf = do
    b1 ← put_lanes buf
    b2 ← put_unchecked name b1
    put_unchecked (codes ">") b2

  unfoldable pub pointer_name : VarType → List ℕ
  unfolding type_name_llvm
  pointer_name type =
      if target.jitc_llvm_opaque_pointers then codes "ptr" else type_name_llvm type ++ codes "*"

  unfoldable pub put_literal : Operand → StringBuffer → Result StringBuffer
  unfolding put_unchecked
  put_literal v buf = elim v.type [
    | VarType.float16 ↦ do
      b1 ← put_unchecked (codes "0x") buf
      put_x64_unchecked (target.to_double VarType.float16 v.literal) b1
    | VarType.float32 ↦ do
      b1 ← put_unchecked (codes "0x") buf
      put_x64_unchecked (target.to_double VarType.float32 v.literal) b1
    | VarType.float64 ↦ do b1 ← put_unchecked (codes "0x") buf; put_x64_unchecked v.literal b1
    | _ ↦ put_u64_unchecked v.literal buf
  ]

  unfoldable pub put_register : Operand → StringBuffer → Result StringBuffer
  unfolding put_unchecked type_prefix
  put_register v buf = do
    b1 ← put_unchecked (type_prefix v.type) buf
    put_u32_unchecked v.reg_index b1

  unfoldable pub follow : Order → StringBuffer → Result StringBuffer
  unfolding put_unchecked put put_lanes put_vector pointer_name put_literal put_register
  follow (put_numeral Numeral.u n) buf = put_u32_unchecked (n % 2 ^ 32) buf
  follow (put_numeral Numeral.u_big n) buf = put_u64_unchecked (n % 2 ^ 64) buf
  follow (put_numeral Numeral.x n) buf = put_x32_unchecked (n % 2 ^ 32) buf
  follow (put_numeral Numeral.x_big n) buf = put_x64_unchecked (n % 2 ^ 64) buf
  follow (put_numeral Numeral.q_big n) buf = put_q64_unchecked (n % 2 ^ 64) buf
  follow (put_string str) buf = put str buf
  follow (put_field Field.t v) buf = put_unchecked (type_name_llvm v.type) buf
  follow (put_field Field.p v) buf = put_unchecked (pointer_name v.type) buf
  follow (put_field Field.p_big v) buf = put_vector (pointer_name v.type) buf
  follow (put_field Field.b v) buf = put_unchecked (type_name_llvm_bin v.type) buf
  follow (put_field Field.d v) buf = put_unchecked (type_name_llvm_big v.type) buf
  follow (put_field Field.h_big v) buf =
      put_unchecked (if is_bool v.type then codes "i8" else type_name_llvm_abbrev v.type) buf
  follow (put_field Field.h v) buf = put_unchecked (type_name_llvm_abbrev v.type) buf
  follow (put_field Field.m v) buf =
      put_unchecked (type_name_llvm (if is_bool v.type then VarType.uint8 else v.type)) buf
  follow (put_field Field.t_big v) buf = put_vector (type_name_llvm v.type) buf
  follow (put_field Field.b_big v) buf = put_vector (type_name_llvm_bin v.type) buf
  follow (put_field Field.d_big v) buf = put_vector (type_name_llvm_big v.type) buf
  follow (put_field Field.m_big v) buf =
      put_vector (type_name_llvm (if is_bool v.type then VarType.uint8 else v.type)) buf
  follow (put_field Field.v v) buf = put_register v buf
  follow (put_field Field.v_big v) buf = do
    b1 ← put_vector (type_name_llvm v.type) buf
    b2 ← put_unchecked (codes " ") b1
    put_register v b2
  follow (put_field Field.l v) buf = put_literal v buf
  follow (put_field Field.a v) buf =
      put_u32_unchecked (if v.unaligned then 1 else type_size v.type) buf
  follow (put_field Field.a_big v) buf =
      put_u32_unchecked
        (if v.unaligned then 1 else (type_size v.type * target.jitc_llvm_vector_width) % 2 ^ 32) buf
  follow (put_field Field.o v) buf = put_u32_unchecked (v.param_offset / 8) buf
  follow (put_global Global.left_brace) buf = put_unchecked (codes "{") buf
  follow (put_global Global.right_brace) buf = put_unchecked (codes "}") buf
  follow (put_global Global.w) buf = put_u32_unchecked target.jitc_llvm_vector_width buf
  follow (put_global Global.z) buf = put_unchecked (codes "zeroinitializer") buf
  follow (put_global Global.e) buf =
      if ltb target.jitc_llvm_version_major 12
      then put_unchecked (codes ".experimental") buf
      else ok buf
  follow (put_global Global.opens) buf =
      if ltb 0 target.callable_depth then put_lanes buf else ok buf
  follow (put_global Global.closes) buf =
      if ltb 0 target.callable_depth then put_unchecked (codes ">") buf else ok buf

  -- What a character does to the buffer and to `offset`.
  unfoldable pub step_plain : ℕ → ℕ → StringBuffer → Result (ℕ × StringBuffer)
  unfolding put_unchecked rewind_to
  step_plain c offset buf =
      if c == b'{'
      then ok (if target.jitc_llvm_opaque_pointers then length buf.text else offset, buf)
      else if c == b'|'
      then (if offset == 0
          then ok (length buf.text, buf)
          else (do b1 ← rewind_to offset buf; ok (0, b1)))
      else if c == b'}'
      then (if offset == 0 then ok (offset, buf) else (do
        b1 ← rewind_to offset buf
        b2 ← (if target.jitc_llvm_opaque_pointers then put_unchecked (codes "ptr") b1 else ok b1)
        ok (0, b2)))
      else (do b1 ← put_unchecked (c ∷ []) buf; ok (offset, b1))

  unfoldable pub write_pieces : List Piece → List Arg → ℕ → StringBuffer → Result StringBuffer
  unfolding follow step_plain next_order
  write_pieces [] args offset buf = ok buf
  write_pieces (plain c ∷ ps) args offset buf = do
    (offset1, b1) ← step_plain c offset buf
    write_pieces ps args offset1 b1
  write_pieces (dollar c ∷ ps) args offset buf = elim (next_order c args) [
    | none ↦ err fail
    | some (what, others) ↦ do b1 ← follow what buf; write_pieces ps others offset b1
  ]

  -- All arguments must be read.
  unfoldable pub fmt_llvm : List ℕ → List Arg → StringBuffer → Result StringBuffer
  unfolding pieces total_length write_pieces make_room terminate
  fmt_llvm fmt args buf = do
    (len, rest) ← total_length (pieces fmt) args
    elim rest [
      | [] ↦ do b1 ← write_pieces (pieces fmt) args 0 (make_room len buf); terminate b1
      | _ ↦ err fail
    ]
