-- ===== src/StringBuffer/Format.antt =====
-- src/strbuf.cpp: what the two formatting routines share: the format as a sequence of characters and
-- directives, and their arguments.
use enoki_jit.Prelude.{ℕ, ◌^◌, ◌<◌, Bool, true, false, List, [], ◌∷◌, ◌==◌}
use enoki_jit.Types.{VarType}

-- The fields of `Variable` that are printed.
pub record Operand : Type 0 where
  pub type : VarType
  pub reg_index : ℕ
  pub literal : ℕ
  pub param_offset : ℕ
  pub unaligned : Bool

-- One argument behind the format.
pub data Arg : Type 0 where
  number : ℕ → Arg
  text : List ℕ → Arg
  var : Operand → Arg

pub data Piece : Type 0 where
  plain : ℕ → Piece
  dollar : ℕ → Piece

-- `c = *p++`, and behind a `$` once more; at the end of the format that reads the zero.
unfoldable pub pieces : List ℕ → List Piece
pieces [] = []
pieces (c ∷ []) = elim (c == b'$') [ true ↦ dollar 0 ∷ [] | false ↦ plain c ∷ [] ]
pieces (c ∷ d ∷ p) = elim (c == b'$') [
  | true ↦ dollar d ∷ pieces p
  | false ↦ plain c ∷ pieces (d ∷ p)
]

-- The fields hold values of their types.
pub record FitsOperand (v : Operand) : Type 0 where
  pub reg_index : v.reg_index < 2 ^ 32
  pub literal : v.literal < 2 ^ 64
  pub param_offset : v.param_offset < 2 ^ 32

abbrev pub FitsArg : Arg → Type 0
FitsArg (number n) = Unit {0}
FitsArg (text t) = Unit {0}
FitsArg (var v) = FitsOperand v

abbrev pub AllFit : List Arg → Type 0
AllFit [] = Unit {0}
AllFit (a ∷ args) = FitsArg a × AllFit args
