-- ===== src/Types.antt =====
-- The enumerations of include/drjit-core/jit.h that the core works with, the classification of
-- variable types in src/internal.h, and the tables of src/var.cpp.
pub mod Kind
use mathlib.Core.Option.{some-injective}
use enoki_jit.Prelude.{
  ℕ, ◌≡◌, refl, sym, ap, ◌∙◌, List, [], ◌∷◌, some, get_elem?, arith, Bool, true, false, ◌||◌,
}

pub data VarType : Type 0 where
  void bool int8 uint8 int16 uint16 int32 uint32 int64 uint64 pointer float16 float32 float64 :
      VarType

pub data JitBackend : Type 0 where
  none cuda llvm : JitBackend

pub data AllocType : Type 0 where
  host host_async host_pinned device : AllocType

abbrev pub backend_code : JitBackend → ℕ
backend_code none = 0
backend_code cuda = 1
backend_code llvm = 2

-- The value of the enumerator.
abbrev pub type_code : VarType → ℕ
type_code void = 0
type_code bool = 1
type_code int8 = 2
type_code uint8 = 3
type_code int16 = 4
type_code uint16 = 5
type_code int32 = 6
type_code uint32 = 7
type_code int64 = 8
type_code uint64 = 9
type_code pointer = 10
type_code float16 = 11
type_code float32 = 12
type_code float64 = 13

-- Byte sizes.
abbrev pub type_size : VarType → ℕ
type_size void = 0
type_size bool = 1
type_size int8 = 1
type_size uint8 = 1
type_size int16 = 2
type_size uint16 = 2
type_size int32 = 4
type_size uint32 = 4
type_size int64 = 8
type_size uint64 = 8
type_size pointer = 8
type_size float16 = 2
type_size float32 = 4
type_size float64 = 8

-- Representation of an all-1 bit vector.
abbrev pub type_all_ones : VarType → ℕ
type_all_ones void = 0
type_all_ones bool = 1
type_all_ones int8 = 0xff
type_all_ones uint8 = 0xff
type_all_ones int16 = 0xffff
type_all_ones uint16 = 0xffff
type_all_ones int32 = 0xffffffff
type_all_ones uint32 = 0xffffffff
type_all_ones int64 = 0xffffffffffffffff
type_all_ones uint64 = 0xffffffffffffffff
type_all_ones pointer = 0xffffffffffffffff
type_all_ones float16 = 0xffff
type_all_ones float32 = 0xffffffff
type_all_ones float64 = 0xffffffffffffffff

-- Representation of the value 1.
abbrev pub type_one : VarType → ℕ
type_one void = 0
type_one bool = 1
type_one int8 = 1
type_one uint8 = 1
type_one int16 = 1
type_one uint16 = 1
type_one int32 = 1
type_one uint32 = 1
type_one int64 = 1
type_one uint64 = 1
type_one pointer = 0
type_one float16 = 0x3c00
type_one float32 = 0x3f800000
type_one float64 = 0x3ff0000000000000

-- Smallest representable value (negative infinity for floats).
abbrev pub type_min : VarType → ℕ
type_min void = 0
type_min bool = 0
type_min int8 = 0x80
type_min uint8 = 0
type_min int16 = 0x8000
type_min uint16 = 0
type_min int32 = 0x80000000
type_min uint32 = 0
type_min int64 = 0x8000000000000000
type_min uint64 = 0
type_min pointer = 0
type_min float16 = 0xfc00
type_min float32 = 0xff800000
type_min float64 = 0xfff0000000000000

-- Largest representable value (infinity for floats).
abbrev pub type_max : VarType → ℕ
type_max void = 0
type_max bool = 1
type_max int8 = 0x7f
type_max uint8 = 0xff
type_max int16 = 0x7fff
type_max uint16 = 0xffff
type_max int32 = 0x7fffffff
type_max uint32 = 0xffffffff
type_max int64 = 0x7fffffffffffffff
type_max uint64 = 0xffffffffffffffff
type_max pointer = 0xffffffffffffffff
type_max float16 = 0x7c00
type_max float32 = 0x7f800000
type_max float64 = 0x7ff0000000000000

-- `jitc_is_arithmetic`, and the other predicates on types.
abbrev pub is_arithmetic : VarType → Bool
is_arithmetic void = false
is_arithmetic bool = false
is_arithmetic _ = true

abbrev pub is_float : VarType → Bool
is_float float16 = true
is_float float32 = true
is_float float64 = true
is_float _ = false

abbrev pub is_half : VarType → Bool
is_half float16 = true
is_half _ = false

abbrev pub is_bool : VarType → Bool
is_bool bool = true
is_bool _ = false

abbrev pub is_sint : VarType → Bool
is_sint int8 = true
is_sint int16 = true
is_sint int32 = true
is_sint int64 = true
is_sint _ = false

abbrev pub is_uint : VarType → Bool
is_uint uint8 = true
is_uint uint16 = true
is_uint uint32 = true
is_uint uint64 = true
is_uint _ = false

abbrev pub is_int : VarType → Bool
is_int t = is_sint t || is_uint t

abbrev pub is_void : VarType → Bool
is_void void = true
is_void _ = false

-- Distinct enumerators have distinct values.
abbrev all_types : List VarType
all_types =
    void ∷ bool ∷ int8 ∷ uint8 ∷ int16 ∷ uint16 ∷ int32 ∷ uint32 ∷ int64 ∷ uint64 ∷ pointer
    ∷ float16 ∷ float32 ∷ float64 ∷ []

type_at_code : (t : VarType) → get_elem? all_types (type_code t) ≡ some t
type_at_code void = refl
type_at_code _ = refl

pub type_code_injective : (t u : VarType) → type_code t ≡ type_code u → t ≡ u
type_code_injective t u h =
    some-injective _ _ (sym (type_at_code t) ∙ ap (get_elem? all_types) h ∙ type_at_code u)

pub backend_code_injective : (a b : JitBackend) → backend_code a ≡ backend_code b → a ≡ b
backend_code_injective a b h = ground arith
