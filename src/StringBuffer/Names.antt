-- ===== src/StringBuffer/Names.antt =====
-- The tables of type names that src/var.cpp gives to the formatting routines.
use enoki_jit.Prelude.{ℕ, List, length, codes, ◌≤◌, arith}
use enoki_jit.Types.{VarType}

unfoldable pub type_name_ptx : VarType → List ℕ
type_name_ptx VarType.void = codes "???"
type_name_ptx VarType.bool = codes "pred"
type_name_ptx VarType.int8 = codes "s8"
type_name_ptx VarType.uint8 = codes "u8"
type_name_ptx VarType.int16 = codes "s16"
type_name_ptx VarType.uint16 = codes "u16"
type_name_ptx VarType.int32 = codes "s32"
type_name_ptx VarType.uint32 = codes "u32"
type_name_ptx VarType.int64 = codes "s64"
type_name_ptx VarType.uint64 = codes "u64"
type_name_ptx VarType.pointer = codes "u64"
type_name_ptx VarType.float16 = codes "f16"
type_name_ptx VarType.float32 = codes "f32"
type_name_ptx VarType.float64 = codes "f64"

pub length-type_name_ptx : (t : VarType) → length (type_name_ptx t) ≤ 4
unfolding type_name_ptx
length-type_name_ptx VarType.void = omega arith
length-type_name_ptx VarType.bool = omega arith
length-type_name_ptx VarType.int8 = omega arith
length-type_name_ptx VarType.uint8 = omega arith
length-type_name_ptx VarType.int16 = omega arith
length-type_name_ptx VarType.uint16 = omega arith
length-type_name_ptx VarType.int32 = omega arith
length-type_name_ptx VarType.uint32 = omega arith
length-type_name_ptx VarType.int64 = omega arith
length-type_name_ptx VarType.uint64 = omega arith
length-type_name_ptx VarType.pointer = omega arith
length-type_name_ptx VarType.float16 = omega arith
length-type_name_ptx VarType.float32 = omega arith
length-type_name_ptx VarType.float64 = omega arith

unfoldable pub type_name_ptx_bin2 : VarType → List ℕ
type_name_ptx_bin2 VarType.void = codes "???"
type_name_ptx_bin2 VarType.bool = codes "b8"
type_name_ptx_bin2 VarType.int8 = codes "b8"
type_name_ptx_bin2 VarType.uint8 = codes "b8"
type_name_ptx_bin2 VarType.int16 = codes "b16"
type_name_ptx_bin2 VarType.uint16 = codes "b16"
type_name_ptx_bin2 VarType.int32 = codes "b32"
type_name_ptx_bin2 VarType.uint32 = codes "b32"
type_name_ptx_bin2 VarType.int64 = codes "b64"
type_name_ptx_bin2 VarType.uint64 = codes "b64"
type_name_ptx_bin2 VarType.pointer = codes "b64"
type_name_ptx_bin2 VarType.float16 = codes "b16"
type_name_ptx_bin2 VarType.float32 = codes "b32"
type_name_ptx_bin2 VarType.float64 = codes "b64"

pub length-type_name_ptx_bin2 : (t : VarType) → length (type_name_ptx_bin2 t) ≤ 3
unfolding type_name_ptx_bin2
length-type_name_ptx_bin2 VarType.void = omega arith
length-type_name_ptx_bin2 VarType.bool = omega arith
length-type_name_ptx_bin2 VarType.int8 = omega arith
length-type_name_ptx_bin2 VarType.uint8 = omega arith
length-type_name_ptx_bin2 VarType.int16 = omega arith
length-type_name_ptx_bin2 VarType.uint16 = omega arith
length-type_name_ptx_bin2 VarType.int32 = omega arith
length-type_name_ptx_bin2 VarType.uint32 = omega arith
length-type_name_ptx_bin2 VarType.int64 = omega arith
length-type_name_ptx_bin2 VarType.uint64 = omega arith
length-type_name_ptx_bin2 VarType.pointer = omega arith
length-type_name_ptx_bin2 VarType.float16 = omega arith
length-type_name_ptx_bin2 VarType.float32 = omega arith
length-type_name_ptx_bin2 VarType.float64 = omega arith

unfoldable pub type_name_ptx_bin : VarType → List ℕ
type_name_ptx_bin VarType.void = codes "???"
type_name_ptx_bin VarType.bool = codes "pred"
type_name_ptx_bin VarType.int8 = codes "b8"
type_name_ptx_bin VarType.uint8 = codes "b8"
type_name_ptx_bin VarType.int16 = codes "b16"
type_name_ptx_bin VarType.uint16 = codes "b16"
type_name_ptx_bin VarType.int32 = codes "b32"
type_name_ptx_bin VarType.uint32 = codes "b32"
type_name_ptx_bin VarType.int64 = codes "b64"
type_name_ptx_bin VarType.uint64 = codes "b64"
type_name_ptx_bin VarType.pointer = codes "b64"
type_name_ptx_bin VarType.float16 = codes "b16"
type_name_ptx_bin VarType.float32 = codes "b32"
type_name_ptx_bin VarType.float64 = codes "b64"

pub length-type_name_ptx_bin : (t : VarType) → length (type_name_ptx_bin t) ≤ 4
unfolding type_name_ptx_bin
length-type_name_ptx_bin VarType.void = omega arith
length-type_name_ptx_bin VarType.bool = omega arith
length-type_name_ptx_bin VarType.int8 = omega arith
length-type_name_ptx_bin VarType.uint8 = omega arith
length-type_name_ptx_bin VarType.int16 = omega arith
length-type_name_ptx_bin VarType.uint16 = omega arith
length-type_name_ptx_bin VarType.int32 = omega arith
length-type_name_ptx_bin VarType.uint32 = omega arith
length-type_name_ptx_bin VarType.int64 = omega arith
length-type_name_ptx_bin VarType.uint64 = omega arith
length-type_name_ptx_bin VarType.pointer = omega arith
length-type_name_ptx_bin VarType.float16 = omega arith
length-type_name_ptx_bin VarType.float32 = omega arith
length-type_name_ptx_bin VarType.float64 = omega arith

unfoldable pub type_name_llvm : VarType → List ℕ
type_name_llvm VarType.void = codes "???"
type_name_llvm VarType.bool = codes "i1"
type_name_llvm VarType.int8 = codes "i8"
type_name_llvm VarType.uint8 = codes "i8"
type_name_llvm VarType.int16 = codes "i16"
type_name_llvm VarType.uint16 = codes "i16"
type_name_llvm VarType.int32 = codes "i32"
type_name_llvm VarType.uint32 = codes "i32"
type_name_llvm VarType.int64 = codes "i64"
type_name_llvm VarType.uint64 = codes "i64"
type_name_llvm VarType.pointer = codes "i64"
type_name_llvm VarType.float16 = codes "half"
type_name_llvm VarType.float32 = codes "float"
type_name_llvm VarType.float64 = codes "double"

pub length-type_name_llvm : (t : VarType) → length (type_name_llvm t) ≤ 6
unfolding type_name_llvm
length-type_name_llvm VarType.void = omega arith
length-type_name_llvm VarType.bool = omega arith
length-type_name_llvm VarType.int8 = omega arith
length-type_name_llvm VarType.uint8 = omega arith
length-type_name_llvm VarType.int16 = omega arith
length-type_name_llvm VarType.uint16 = omega arith
length-type_name_llvm VarType.int32 = omega arith
length-type_name_llvm VarType.uint32 = omega arith
length-type_name_llvm VarType.int64 = omega arith
length-type_name_llvm VarType.uint64 = omega arith
length-type_name_llvm VarType.pointer = omega arith
length-type_name_llvm VarType.float16 = omega arith
length-type_name_llvm VarType.float32 = omega arith
length-type_name_llvm VarType.float64 = omega arith

unfoldable pub type_name_llvm_big : VarType → List ℕ
type_name_llvm_big VarType.void = codes "???"
type_name_llvm_big VarType.bool = codes "???"
type_name_llvm_big VarType.int8 = codes "i16"
type_name_llvm_big VarType.uint8 = codes "i16"
type_name_llvm_big VarType.int16 = codes "i32"
type_name_llvm_big VarType.uint16 = codes "i32"
type_name_llvm_big VarType.int32 = codes "i64"
type_name_llvm_big VarType.uint32 = codes "i64"
type_name_llvm_big VarType.int64 = codes "i128"
type_name_llvm_big VarType.uint64 = codes "i128"
type_name_llvm_big VarType.pointer = codes "???"
type_name_llvm_big VarType.float16 = codes "???"
type_name_llvm_big VarType.float32 = codes "???"
type_name_llvm_big VarType.float64 = codes "???"

pub length-type_name_llvm_big : (t : VarType) → length (type_name_llvm_big t) ≤ 4
unfolding type_name_llvm_big
length-type_name_llvm_big VarType.void = omega arith
length-type_name_llvm_big VarType.bool = omega arith
length-type_name_llvm_big VarType.int8 = omega arith
length-type_name_llvm_big VarType.uint8 = omega arith
length-type_name_llvm_big VarType.int16 = omega arith
length-type_name_llvm_big VarType.uint16 = omega arith
length-type_name_llvm_big VarType.int32 = omega arith
length-type_name_llvm_big VarType.uint32 = omega arith
length-type_name_llvm_big VarType.int64 = omega arith
length-type_name_llvm_big VarType.uint64 = omega arith
length-type_name_llvm_big VarType.pointer = omega arith
length-type_name_llvm_big VarType.float16 = omega arith
length-type_name_llvm_big VarType.float32 = omega arith
length-type_name_llvm_big VarType.float64 = omega arith

unfoldable pub type_name_llvm_abbrev : VarType → List ℕ
type_name_llvm_abbrev VarType.void = codes "???"
type_name_llvm_abbrev VarType.bool = codes "i1"
type_name_llvm_abbrev VarType.int8 = codes "i8"
type_name_llvm_abbrev VarType.uint8 = codes "i8"
type_name_llvm_abbrev VarType.int16 = codes "i16"
type_name_llvm_abbrev VarType.uint16 = codes "i16"
type_name_llvm_abbrev VarType.int32 = codes "i32"
type_name_llvm_abbrev VarType.uint32 = codes "i32"
type_name_llvm_abbrev VarType.int64 = codes "i64"
type_name_llvm_abbrev VarType.uint64 = codes "i64"
type_name_llvm_abbrev VarType.pointer = codes "i64"
type_name_llvm_abbrev VarType.float16 = codes "f16"
type_name_llvm_abbrev VarType.float32 = codes "f32"
type_name_llvm_abbrev VarType.float64 = codes "f64"

pub length-type_name_llvm_abbrev : (t : VarType) → length (type_name_llvm_abbrev t) ≤ 3
unfolding type_name_llvm_abbrev
length-type_name_llvm_abbrev VarType.void = omega arith
length-type_name_llvm_abbrev VarType.bool = omega arith
length-type_name_llvm_abbrev VarType.int8 = omega arith
length-type_name_llvm_abbrev VarType.uint8 = omega arith
length-type_name_llvm_abbrev VarType.int16 = omega arith
length-type_name_llvm_abbrev VarType.uint16 = omega arith
length-type_name_llvm_abbrev VarType.int32 = omega arith
length-type_name_llvm_abbrev VarType.uint32 = omega arith
length-type_name_llvm_abbrev VarType.int64 = omega arith
length-type_name_llvm_abbrev VarType.uint64 = omega arith
length-type_name_llvm_abbrev VarType.pointer = omega arith
length-type_name_llvm_abbrev VarType.float16 = omega arith
length-type_name_llvm_abbrev VarType.float32 = omega arith
length-type_name_llvm_abbrev VarType.float64 = omega arith

unfoldable pub type_name_llvm_bin : VarType → List ℕ
type_name_llvm_bin VarType.void = codes "???"
type_name_llvm_bin VarType.bool = codes "i1"
type_name_llvm_bin VarType.int8 = codes "i8"
type_name_llvm_bin VarType.uint8 = codes "i8"
type_name_llvm_bin VarType.int16 = codes "i16"
type_name_llvm_bin VarType.uint16 = codes "i16"
type_name_llvm_bin VarType.int32 = codes "i32"
type_name_llvm_bin VarType.uint32 = codes "i32"
type_name_llvm_bin VarType.int64 = codes "i64"
type_name_llvm_bin VarType.uint64 = codes "i64"
type_name_llvm_bin VarType.pointer = codes "i64"
type_name_llvm_bin VarType.float16 = codes "i16"
type_name_llvm_bin VarType.float32 = codes "i32"
type_name_llvm_bin VarType.float64 = codes "i64"

pub length-type_name_llvm_bin : (t : VarType) → length (type_name_llvm_bin t) ≤ 3
unfolding type_name_llvm_bin
length-type_name_llvm_bin VarType.void = omega arith
length-type_name_llvm_bin VarType.bool = omega arith
length-type_name_llvm_bin VarType.int8 = omega arith
length-type_name_llvm_bin VarType.uint8 = omega arith
length-type_name_llvm_bin VarType.int16 = omega arith
length-type_name_llvm_bin VarType.uint16 = omega arith
length-type_name_llvm_bin VarType.int32 = omega arith
length-type_name_llvm_bin VarType.uint32 = omega arith
length-type_name_llvm_bin VarType.int64 = omega arith
length-type_name_llvm_bin VarType.uint64 = omega arith
length-type_name_llvm_bin VarType.pointer = omega arith
length-type_name_llvm_bin VarType.float16 = omega arith
length-type_name_llvm_bin VarType.float32 = omega arith
length-type_name_llvm_bin VarType.float64 = omega arith

unfoldable pub type_prefix : VarType → List ℕ
type_prefix VarType.void = codes "%u"
type_prefix VarType.bool = codes "%p"
type_prefix VarType.int8 = codes "%b"
type_prefix VarType.uint8 = codes "%b"
type_prefix VarType.int16 = codes "%w"
type_prefix VarType.uint16 = codes "%w"
type_prefix VarType.int32 = codes "%r"
type_prefix VarType.uint32 = codes "%r"
type_prefix VarType.int64 = codes "%rd"
type_prefix VarType.uint64 = codes "%rd"
type_prefix VarType.pointer = codes "%rd"
type_prefix VarType.float16 = codes "%h"
type_prefix VarType.float32 = codes "%f"
type_prefix VarType.float64 = codes "%d"

pub length-type_prefix : (t : VarType) → length (type_prefix t) ≤ 3
unfolding type_prefix
length-type_prefix VarType.void = omega arith
length-type_prefix VarType.bool = omega arith
length-type_prefix VarType.int8 = omega arith
length-type_prefix VarType.uint8 = omega arith
length-type_prefix VarType.int16 = omega arith
length-type_prefix VarType.uint16 = omega arith
length-type_prefix VarType.int32 = omega arith
length-type_prefix VarType.uint32 = omega arith
length-type_prefix VarType.int64 = omega arith
length-type_prefix VarType.uint64 = omega arith
length-type_prefix VarType.pointer = omega arith
length-type_prefix VarType.float16 = omega arith
length-type_prefix VarType.float32 = omega arith
length-type_prefix VarType.float64 = omega arith
