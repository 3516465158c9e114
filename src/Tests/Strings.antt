-- ===== src/Tests/Strings.antt =====
-- Runs of the string buffer of src/strbuf.cpp.
use enoki_jit.Prelude.{
  ℕ, ◌≤◌, ◌<◌, ◌≡◌, refl, true, false, some, List, [], ◌∷◌, ◌++◌, length, codes, repeat, arith,
}
use enoki_jit.Prelude.Result.{ok, err, fail}
use enoki_jit.Types.{VarType}
use enoki_jit.StringBuffer.{new_buffer, StringBuffer, put, put_copies, fmt, move_suffix}
use enoki_jit.StringBuffer.Room.{Appended, put-Appended}
use enoki_jit.StringBuffer.Fmt.{fmt-Appended}
use enoki_jit.StringBuffer.Moves.{move_suffix-moves}
use enoki_jit.StringBuffer.Numbers.{put_u32, put_u64, put_x32, put_x64}
use enoki_jit.StringBuffer.Numbers.Printed.{shown, digits, Shows, put_numbers-Shows}
use enoki_jit.StringBuffer.Format.{Operand, Arg, number, var, FitsOperand, pieces, AllFit}
use enoki_jit.StringBuffer.Names.{type_name_ptx, type_prefix}
use enoki_jit.StringBuffer.Llvm.{Target}
use enoki_jit.StringBuffer.Llvm.Write.{write_pieces, fmt_llvm}
use enoki_jit.StringBuffer.Llvm.Write.Groups.{write_pieces_chooses}
use enoki_jit.StringBuffer.Llvm.Write.Overrun.{fmt_llvm_overruns}
use enoki_jit.StringBuffer.Cuda.{next_directive, measure, fmt_cuda}
use enoki_jit.StringBuffer.Cuda.Safe.{render, fmt_cuda-Renders}

abbrev pub half_full : StringBuffer
half_full = record { text = codes "add"; capacity = 4 }

put-Appended_example :
    ((b' : StringBuffer) × (put (codes ".u32 ") half_full ≡ ok b')
      × Appended (codes ".u32 ") half_full b')
    × ((b' : StringBuffer) × (put_copies 32 3 half_full ≡ ok b')
        × Appended (repeat 3 32) half_full b')
put-Appended_example = put-Appended (codes ".u32 ") 32 3 half_full

fmt-Appended_example :
    (b' : StringBuffer) × (fmt 2 (some (codes "%r17")) half_full ≡ ok (4, b'))
    × Appended (codes "%r17") half_full b'
fmt-Appended_example = fmt-Appended 0 (codes "%r17") half_full

move_suffix-moves_example :
    let b : StringBuffer = record { text = codes "declbodyparam"; capacity = 16 } in
    (b' : StringBuffer) × (move_suffix 8 4 b ≡ ok b')
    × (b'.text ≡ codes "declparambody")
    × (16 ≤ b'.capacity)
move_suffix-moves_example = move_suffix-moves (codes "decl") (codes "body") (codes "param") 16

put_numbers-Shows_example :
    Shows (put_u32 255) 10 10 255 half_full
    × Shows (put_u64 4294967296) 10 20 4294967296 half_full
    × Shows (put_x32 255) 16 8 255 half_full
    × Shows (put_x64 4294967296) 16 16 4294967296 half_full
put_numbers-Shows_example = put_numbers-Shows 255 4294967296 half_full (omega arith) (omega arith)

abbrev pub register : Operand
register = record {
  type = VarType.float32;
  reg_index = 17;
  literal = 0;
  param_offset = 8;
  unaligned = false;
}

abbrev pub template : List ℕ
template = codes "mov.$t $v, $u;"

abbrev pub operands : List Arg
operands = var register ∷ var register ∷ number 5 ∷ []

abbrev operands-AllFit : AllFit operands
operands-AllFit =
    let fit : FitsOperand register = record {
      reg_index = omega arith;
      literal = omega arith;
      param_offset = omega arith;
    } in
    (fit, (fit, (tt, tt)))

measured_template : measure (pieces template) operands ≡ ok (37, [])
unfolding measure pieces next_directive
measured_template = refl

fmt_cuda-Renders_example :
    (b' : StringBuffer) × (fmt_cuda template operands half_full ≡ ok b')
    × (b'.text ≡ half_full.text ++ render (pieces template) operands)
    × (length (render (pieces template) operands) ≤ 37)
    × (length b'.text < b'.capacity)
fmt_cuda-Renders_example =
    fmt_cuda-Renders template operands 37 half_full measured_template operands-AllFit

renders_template : render (pieces template) operands ≡ codes "mov.f32 %f17, 5;"
unfolding render pieces next_directive type_name_ptx type_prefix shown digits
renders_template = refl

abbrev pub llvm_target : Target
llvm_target = record {
  jitc_llvm_vector_width = 8;
  jitc_llvm_opaque_pointers = true;
  jitc_llvm_version_major = 16;
  callable_depth = 0;
  to_double = λ type literal. literal;
}

abbrev pub greatest : Operand
greatest = record {
  type = VarType.uint64;
  reg_index = 0;
  literal = 18446744073709551615;
  param_offset = 0;
  unaligned = false;
}

fmt_llvm_overruns_example :
    fmt_llvm llvm_target (codes "$l") (var greatest ∷ []) (new_buffer 19) ≡ err fail
fmt_llvm_overruns_example =
    fmt_llvm_overruns llvm_target (new_buffer 19) greatest refl (omega arith) refl

write_pieces_chooses_example :
    let b : StringBuffer = record { text = codes "load "; capacity = 64 } in
    (write_pieces llvm_target (pieces (codes "{i8*|ptr}, ")) [] 0 b
      ≡ write_pieces llvm_target (pieces (codes ", ")) [] 0 (record b { text = codes "load ptr" }))
    × (write_pieces llvm_target (pieces (codes "{i8*}, ")) [] 0 b
        ≡ write_pieces llvm_target
            (pieces (codes ", "))
            []
            0
            (record b { text = codes "load ptr" }))
unfolding pieces
write_pieces_chooses_example =
    write_pieces_chooses llvm_target (codes "i8*") (codes "ptr") (pieces (codes ", ")) []
      (record { text = codes "load "; capacity = 64 }) (refl, (refl, (refl, tt)))
      (refl, (refl, (refl, tt))) (omega arith) (omega arith)
