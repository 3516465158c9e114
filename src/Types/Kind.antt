-- ===== src/Types/Kind.antt =====
-- `VarKind` of src/internal.h, in the order of the enumeration.
use Prim.Native.Nat.{ℕ}
use mathlib.Core.Bool.{Bool, true, false}
use mathlib.Core.Option.{some-injective}
use enoki_jit.Prelude.{ltb, ◌≡◌, refl, sym, ap, ◌∙◌, List, [], ◌∷◌, some, get_elem?}

pub data VarKind : Type 0 where
  invalid evaluated undefined literal nop neg not sqrt sqrt_approx : VarKind
  abs add sub mul div div_approx modulo mulhi fma : VarKind
  min max ceil floor round trunc eq neq lt : VarKind
  le gt ge select array_select popc clz ctz brev : VarKind
  and or xor shl shr rcp rcp_approx rsqrt_approx sin : VarKind
  cos exp2 log2 cast bitcast bounds_check gather scatter scatter_inc : VarKind
  scatter_kahan packet_gather packet_scatter counter default_mask call call_mask call_self
        call_input :
      VarKind
  call_output tex_lookup tex_fetch_bilerp trace_ray extract thread_index loop_start loop_cond
        loop_end :
      VarKind
  loop_phi loop_output array_phi cond_start cond_mid cond_end cond_output array array_init : VarKind
  array_read array_write : VarKind

-- The value of the enumerator.
unfoldable pub kind_code : VarKind → ℕ
kind_code invalid = 0
kind_code evaluated = 1
kind_code undefined = 2
kind_code literal = 3
kind_code nop = 4
kind_code neg = 5
kind_code not = 6
kind_code sqrt = 7
kind_code sqrt_approx = 8
kind_code abs = 9
kind_code add = 10
kind_code sub = 11
kind_code mul = 12
kind_code div = 13
kind_code div_approx = 14
kind_code modulo = 15
kind_code mulhi = 16
kind_code fma = 17
kind_code min = 18
kind_code max = 19
kind_code ceil = 20
kind_code floor = 21
kind_code round = 22
kind_code trunc = 23
kind_code eq = 24
kind_code neq = 25
kind_code lt = 26
kind_code le = 27
kind_code gt = 28
kind_code ge = 29
kind_code select = 30
kind_code array_select = 31
kind_code popc = 32
kind_code clz = 33
kind_code ctz = 34
kind_code brev = 35
kind_code and = 36
kind_code or = 37
kind_code xor = 38
kind_code shl = 39
kind_code shr = 40
kind_code rcp = 41
kind_code rcp_approx = 42
kind_code rsqrt_approx = 43
kind_code sin = 44
kind_code cos = 45
kind_code exp2 = 46
kind_code log2 = 47
kind_code cast = 48
kind_code bitcast = 49
kind_code bounds_check = 50
kind_code gather = 51
kind_code scatter = 52
kind_code scatter_inc = 53
kind_code scatter_kahan = 54
kind_code packet_gather = 55
kind_code packet_scatter = 56
kind_code counter = 57
kind_code default_mask = 58
kind_code call = 59
kind_code call_mask = 60
kind_code call_self = 61
kind_code call_input = 62
kind_code call_output = 63
kind_code tex_lookup = 64
kind_code tex_fetch_bilerp = 65
kind_code trace_ray = 66
kind_code extract = 67
kind_code thread_index = 68
kind_code loop_start = 69
kind_code loop_cond = 70
kind_code loop_end = 71
kind_code loop_phi = 72
kind_code loop_output = 73
kind_code array_phi = 74
kind_code cond_start = 75
kind_code cond_mid = 76
kind_code cond_end = 77
kind_code cond_output = 78
kind_code array = 79
kind_code array_init = 80
kind_code array_read = 81
kind_code array_write = 82

-- `Variable::is_evaluated`, `is_literal`, `is_undefined`, `is_node`.
abbrev pub is_evaluated : VarKind → Bool
is_evaluated evaluated = true
is_evaluated _ = false

abbrev pub is_literal : VarKind → Bool
is_literal literal = true
is_literal _ = false

abbrev pub is_undefined : VarKind → Bool
is_undefined undefined = true
is_undefined _ = false

unfoldable pub is_node : VarKind → Bool
unfolding kind_code
is_node k = ltb (kind_code literal) (kind_code k)

-- The enumerators in order, which show that no two share a value.
abbrev all_kinds : List VarKind
all_kinds =
    invalid ∷ evaluated ∷ undefined ∷ literal ∷ nop ∷ neg ∷ not ∷ sqrt ∷ sqrt_approx ∷ abs ∷ add
    ∷ sub ∷ mul ∷ div ∷ div_approx ∷ modulo ∷ mulhi ∷ fma ∷ min ∷ max ∷ ceil ∷ floor ∷ round ∷ trunc
    ∷ eq ∷ neq ∷ lt ∷ le ∷ gt ∷ ge ∷ select ∷ array_select ∷ popc ∷ clz ∷ ctz ∷ brev ∷ and ∷ or
    ∷ xor ∷ shl ∷ shr ∷ rcp ∷ rcp_approx ∷ rsqrt_approx ∷ sin ∷ cos ∷ exp2 ∷ log2 ∷ cast ∷ bitcast
    ∷ bounds_check ∷ gather ∷ scatter ∷ scatter_inc ∷ scatter_kahan ∷ packet_gather ∷ packet_scatter
    ∷ counter ∷ default_mask ∷ call ∷ call_mask ∷ call_self ∷ call_input ∷ call_output ∷ tex_lookup
    ∷ tex_fetch_bilerp ∷ trace_ray ∷ extract ∷ thread_index ∷ loop_start ∷ loop_cond ∷ loop_end
    ∷ loop_phi ∷ loop_output ∷ array_phi ∷ cond_start ∷ cond_mid ∷ cond_end ∷ cond_output ∷ array
    ∷ array_init ∷ array_read ∷ array_write ∷ []

kind_at_code : (k : VarKind) → get_elem? all_kinds (kind_code k) ≡ some k
unfolding kind_code
kind_at_code invalid = refl
kind_at_code _ = refl

pub kind_code_injective : (j k : VarKind) → kind_code j ≡ kind_code k → j ≡ k
kind_code_injective j k h =
    some-injective _ _ (sym (kind_at_code j) ∙ ap (get_elem? all_kinds) h ∙ kind_at_code k)
