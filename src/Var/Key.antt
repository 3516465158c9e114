-- ===== src/Var/Key.antt =====
-- src/internal.h: `Variable` (the fields that the core reads and writes) and `VariableKey`, the
-- packed key of local value numbering. A field holds the value of its unsigned C++ type.
pub mod Injective
use Prim.Native.Nat.{bit_and, bit_xor}
use enoki_jit.Prelude.{ℕ, ◌+◌, ◌*◌, ◌%◌, ◌^◌, Bool, true, false}
use enoki_jit.Types.{VarType, JitBackend, type_code, backend_code}
use enoki_jit.Types.Kind.{VarKind, kind_code}

-- `uint32_t dep[4]`.
pub record Deps : Type 0 where
  pub d0 : ℕ
  pub d1 : ℕ
  pub d2 : ℕ
  pub d3 : ℕ

-- `literal` is the union with `data`. `is_array` stands for `array_state != Invalid`.
pub record Variable : Type 0 where
  pub ref_count : ℕ
  pub scope : ℕ
  pub dep : Deps
  pub literal : ℕ
  pub size : ℕ
  pub counter : ℕ
  pub kind : VarKind
  pub backend : JitBackend
  pub type : VarType
  pub write_ptr : Bool
  pub retain_data : Bool
  pub symbolic : Bool
  pub consumed : Bool
  pub side_effect : Bool
  pub output_flag : Bool
  pub reg_index : ℕ
  pub is_array : Bool
  pub ref_count_se : ℕ
  pub ref_count_stashed : ℕ
  pub extra : ℕ

abbrev pub no_deps : Deps
no_deps = record { d0 = 0; d1 = 0; d2 = 0; d3 = 0 }

-- `Variable()`, which zero-initialises.
abbrev pub zero_variable : Variable
zero_variable = record {
  ref_count = 0;
  scope = 0;
  dep = no_deps;
  literal = 0;
  size = 0;
  counter = 0;
  kind = VarKind.invalid;
  backend = JitBackend.none;
  type = VarType.void;
  write_ptr = false;
  retain_data = false;
  symbolic = false;
  consumed = false;
  side_effect = false;
  output_flag = false;
  reg_index = 0;
  is_array = false;
  ref_count_se = 0;
  ref_count_stashed = 0;
  extra = 0;
}

-- The bit fields `kind : 8`, `backend : 2`, `type : 4`, `write_ptr : 1` stand apart.
pub record VariableKey : Type 0 where
  pub size : ℕ
  pub dep : Deps
  pub kind : ℕ
  pub backend : ℕ
  pub type : ℕ
  pub write_ptr : ℕ
  pub scope_lo : ℕ
  pub literal : ℕ

abbrev pub flag : Bool → ℕ
flag true = 1
flag false = 0

-- `d ^= scope_hi & 0xF0000000`.
unfoldable pub mix : ℕ → ℕ → ℕ
mix d scope_hi = bit_xor d (bit_and scope_hi 0xF000_0000)

-- The constructor `VariableKey(const Variable &v)`; each round shifts `scope_hi` left by 4.
unfoldable pub variable_key : Variable → VariableKey
unfolding mix kind_code
variable_key v = record {
  size = v.size;
  dep = record {
    d0 = mix v.dep.d0 v.scope;
    d1 = mix v.dep.d1 (v.scope * 2 ^ 4 % 2 ^ 32);
    d2 = mix v.dep.d2 (v.scope * 2 ^ 4 % 2 ^ 32 * 2 ^ 4 % 2 ^ 32);
    d3 = mix v.dep.d3 (v.scope * 2 ^ 4 % 2 ^ 32 * 2 ^ 4 % 2 ^ 32 * 2 ^ 4 % 2 ^ 32);
  };
  kind = kind_code v.kind;
  backend = backend_code v.backend;
  type = type_code v.type;
  write_ptr = flag v.write_ptr;
  scope_lo = v.scope % 2 ^ 16;
  literal = v.literal;
}
