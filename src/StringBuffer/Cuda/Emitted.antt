-- ===== src/StringBuffer/Cuda/Emitted.antt =====
-- src/strbuf.cpp: what each directive of `fmt_cuda` writes, and in how many bytes.
use enoki_jit.Prelude.{
  ℕ, zero, suc, ◌+◌, ◌/◌, ◌%◌, ◌^◌, ◌≤◌, ◌<◌, ◌≡◌, refl, ◌∙◌, ap, Bool, true, false, List, [], ◌∷◌,
  ◌++◌, length, codes, if◌then◌else◌, arith, length-append, append_assoc,
}
use enoki_jit.Prelude.Result.{Result, ok, ◌>>=◌}
use enoki_jit.Types.{VarType, type_size, is_bool}
use enoki_jit.StringBuffer.{StringBuffer, put_unchecked}
use enoki_jit.StringBuffer.Room.{put_unchecked-fits, put-Appended}
use enoki_jit.StringBuffer.Numbers.{put_number_unchecked, filled_digits, put_q64_unchecked}
use enoki_jit.StringBuffer.Numbers.Printed.{shown, shown-Printed, put_number_unchecked-shown}
use enoki_jit.StringBuffer.Names.{
  type_name_ptx, type_name_ptx_bin, type_name_ptx_bin2, type_prefix, length-type_name_ptx,
  length-type_name_ptx_bin, length-type_name_ptx_bin2, length-type_prefix,
}
use enoki_jit.StringBuffer.Format.{Operand, FitsOperand}
use enoki_jit.StringBuffer.Cuda.{
  NumberCode, OperandCode, Directive, put_number, put_text, put_operand, cost, emit,
}

-- What a directive stands for, in place of how it is written.
unfoldable pub render_one : Directive → List ℕ
render_one (put_number NumberCode.u n) = shown 10 (n % 2 ^ 32)
render_one (put_number NumberCode.u_big n) = shown 10 (n % 2 ^ 64)
render_one (put_number NumberCode.x n) = shown 16 (n % 2 ^ 32)
render_one (put_number NumberCode.x_big n) = shown 16 (n % 2 ^ 64)
render_one (put_number NumberCode.q_big n) = filled_digits 16 (n % 2 ^ 64)
render_one (put_number NumberCode.c n) = n % 256 ∷ []
render_one (put_text str) = str
render_one (put_operand OperandCode.t w) = type_name_ptx w.type
render_one (put_operand OperandCode.b_big w) = type_name_ptx_bin2 w.type
render_one (put_operand OperandCode.b w) = type_name_ptx_bin w.type
render_one (put_operand OperandCode.v_big w) =
    if is_bool w.type then codes "%w0" else type_prefix w.type ++ shown 10 w.reg_index
render_one (put_operand OperandCode.v w) = type_prefix w.type ++ shown 10 w.reg_index
render_one (put_operand OperandCode.l w) = codes "0x" ++ shown 16 w.literal
render_one (put_operand OperandCode.a w) = shown 10 (type_size w.type)
render_one (put_operand OperandCode.o w) = shown 10 w.param_offset

-- The text `str` of at most `n` bytes was added.
pub record Emitted (str : List ℕ) (n : ℕ) (buf : StringBuffer) (r : Result StringBuffer)
    : Type 0 where
  pub after : StringBuffer
  pub run : r ≡ ok after
  pub text : after.text ≡ buf.text ++ str
  pub larger : buf.capacity ≤ after.capacity
  pub short : length str ≤ n

wrote :
    (str : List ℕ) (n : ℕ) (buf : StringBuffer)
    → length str ≤ n
    → length buf.text + n < buf.capacity
    → Emitted str n buf (put_unchecked str buf)
wrote str n buf s r = record {
  after = _;
  run = put_unchecked-fits str buf (omega arith);
  text = refl;
  larger = omega arith;
  short = s;
}

wrote_number :
    (base n value : ℕ) (buf : StringBuffer)
    → 2 ≤ base
    → base ≤ 16
    → value < 2 ^ 64
    → value < base ^ suc n
    → length buf.text + suc n < buf.capacity
    → Emitted (shown base value) (suc n) buf (put_number_unchecked base value buf)
wrote_number base n value buf t s h k r = record {
  after = _;
  run = put_number_unchecked-shown base t s n value buf h k (omega arith);
  text = refl;
  larger = omega arith;
  short = (shown-Printed base t s n value h k).short;
}

-- One text behind another.
pub both-Emitted :
    (xs ys : List ℕ) (m n : ℕ) (buf : StringBuffer) (r : Result StringBuffer)
    (next : StringBuffer → Result StringBuffer)
    → length buf.text + (m + n) < buf.capacity
    → Emitted xs m buf r
    → ((b1 : StringBuffer) → length b1.text + n < b1.capacity → Emitted ys n b1 (next b1))
    → Emitted (xs ++ ys) (m + n) buf (r >>= next)
both-Emitted xs ys m n buf r next h a others =
    let long = ap (λ t. length t) a.text in
    let e = others a.after (omega (arith, a.larger, a.short, length-append buf.text xs, long)) in
    record {
      after = e.after;
      run = ap (λ (r : Result StringBuffer). r >>= next) a.run ∙ e.run;
      text = e.text ∙ ap (λ t. t ++ ys) a.text ∙ append_assoc buf.text xs ys;
      larger = omega (arith, a.larger, e.larger);
      short = omega (arith, length-append xs ys, a.short, e.short);
    }

pub wrote_both :
    (xs ys : List ℕ) (m n : ℕ) (buf : StringBuffer) (next : StringBuffer → Result StringBuffer)
    → length buf.text + (m + n) < buf.capacity
    → length xs ≤ m
    → ((b1 : StringBuffer) → length b1.text + n < b1.capacity → Emitted ys n b1 (next b1))
    → Emitted (xs ++ ys) (m + n) buf (put_unchecked xs buf >>= next)
wrote_both xs ys m n buf next h s others =
    both-Emitted xs ys m n buf _ next h (wrote xs m buf s (omega arith)) others

length-filled_digits : (n value : ℕ) → length (filled_digits n value) ≡ n
unfolding filled_digits
length-filled_digits zero value = refl
length-filled_digits (suc n) value = omega (
  arith,
  length-append (filled_digits n (value / 16)) (_ ∷ []),
  length-filled_digits n (value / 16),
)

unfoldable pub FitsDirective : Directive → Type 0
FitsDirective (put_operand k w) = FitsOperand w
FitsDirective _ = Unit {0}

wrote_register :
    (w : Operand) (buf : StringBuffer)
    → FitsOperand w
    → length buf.text + 13 < buf.capacity
    → Emitted
        (type_prefix w.type ++ shown 10 w.reg_index)
        (3 + 10)
        buf
        (put_unchecked (type_prefix w.type) buf >>= put_number_unchecked 10 w.reg_index)
wrote_register w buf f r =
    wrote_both (type_prefix w.type) (shown 10 w.reg_index) 3 10 buf _ r (length-type_prefix w.type)
      (λ b1 q.
        wrote_number 10 9 w.reg_index b1 (omega arith) (omega arith) (omega (arith, f.reg_index))
          (omega (arith, f.reg_index)) q)

wrote_hex :
    (w : Operand) (buf : StringBuffer)
    → FitsOperand w
    → length buf.text + 18 < buf.capacity
    → Emitted
        (codes "0x" ++ shown 16 w.literal)
        (2 + 16)
        buf
        (put_unchecked (codes "0x") buf >>= put_number_unchecked 16 w.literal)
wrote_hex w buf f r =
    wrote_both (codes "0x") (shown 16 w.literal) 2 16 buf _ r (omega arith) (λ b1 q.
      wrote_number 16 15 w.literal b1 (omega arith) (omega arith) f.literal
        (omega (arith, f.literal)) q)

type_size-le : (t : VarType) → type_size t ≤ 8
type_size-le VarType.void = omega arith
type_size-le VarType.bool = omega arith
type_size-le VarType.int8 = omega arith
type_size-le VarType.uint8 = omega arith
type_size-le VarType.int16 = omega arith
type_size-le VarType.uint16 = omega arith
type_size-le VarType.int32 = omega arith
type_size-le VarType.uint32 = omega arith
type_size-le VarType.int64 = omega arith
type_size-le VarType.uint64 = omega arith
type_size-le VarType.pointer = omega arith
type_size-le VarType.float16 = omega arith
type_size-le VarType.float32 = omega arith
type_size-le VarType.float64 = omega arith

le_trans : (a b c : ℕ) → a ≤ b → b ≤ c → a ≤ c
le_trans a b c h k = omega arith

either_Emitted :
    (b : Bool) (xs ys : List ℕ) (n : ℕ) (buf : StringBuffer) (p q : Result StringBuffer)
    → Emitted xs n buf p
    → Emitted ys n buf q
    → Emitted (if b then xs else ys) n buf (if b then p else q)
either_Emitted true xs ys n buf p q a c = a
either_Emitted false xs ys n buf p q a c = c

-- Each directive writes what it stands for, within its share of the length.
pub emit-Emitted :
    (d : Directive) (buf : StringBuffer)
    → FitsDirective d
    → length buf.text + cost d < buf.capacity
    → Emitted (render_one d) (cost d) buf (emit d buf)
unfolding emit cost render_one FitsDirective put_q64_unchecked
emit-Emitted (put_number NumberCode.u n) buf f r =
    wrote_number 10 9 (n % 2 ^ 32) buf (omega arith) (omega arith) (omega arith) (omega arith) r
emit-Emitted (put_number NumberCode.u_big n) buf f r =
    wrote_number 10 19 (n % 2 ^ 64) buf (omega arith) (omega arith) (omega arith) (omega arith) r
emit-Emitted (put_number NumberCode.x n) buf f r =
    wrote_number 16 7 (n % 2 ^ 32) buf (omega arith) (omega arith) (omega arith) (omega arith) r
emit-Emitted (put_number NumberCode.x_big n) buf f r =
    wrote_number 16 15 (n % 2 ^ 64) buf (omega arith) (omega arith) (omega arith) (omega arith) r
emit-Emitted (put_number NumberCode.q_big n) buf f r =
    wrote (filled_digits 16 (n % 2 ^ 64)) 16 buf
      (omega (arith, length-filled_digits 16 (n % 2 ^ 64))) r
emit-Emitted (put_number NumberCode.c n) buf f r = wrote (n % 256 ∷ []) 1 buf (omega arith) r
emit-Emitted (put_text str) buf f r =
    let (b', run, a) = (put-Appended str 0 0 buf).0 in
    record { after = b'; run = run; text = a.text; larger = a.larger; short = omega arith }
emit-Emitted (put_operand OperandCode.t w) buf f r =
    wrote (type_name_ptx w.type) 6 buf (omega (arith, length-type_name_ptx w.type)) r
emit-Emitted (put_operand OperandCode.b_big w) buf f r =
    wrote (type_name_ptx_bin2 w.type) 6 buf (omega (arith, length-type_name_ptx_bin2 w.type)) r
emit-Emitted (put_operand OperandCode.b w) buf f r =
    wrote (type_name_ptx_bin w.type) 6 buf (omega (arith, length-type_name_ptx_bin w.type)) r
emit-Emitted (put_operand OperandCode.v_big w) buf f r =
    either_Emitted (is_bool w.type) _ _ 13 buf _ _ (wrote (codes "%w0") 13 buf (omega arith) r)
      (wrote_register w buf f r)
emit-Emitted (put_operand OperandCode.v w) buf f r = wrote_register w buf f r
emit-Emitted (put_operand OperandCode.l w) buf f r = wrote_hex w buf f r
emit-Emitted (put_operand OperandCode.a w) buf f r =
    wrote_number 10 9 (type_size w.type) buf (omega arith) (omega arith)
      (omega (arith, type_size-le w.type)) (omega (arith, type_size-le w.type)) r
emit-Emitted (put_operand OperandCode.o w) buf f r =
    wrote_number 10 9 w.param_offset buf (omega arith) (omega arith) (omega (arith, f.param_offset))
      (omega (arith, f.param_offset)) r
