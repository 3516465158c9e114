-- ===== src/StringBuffer/Cuda/Safe.antt =====
-- src/strbuf.cpp: the length that the first phase of `fmt_cuda` adds up is enough for the second.
use mathlib.Core.Option.{some-injective}
use enoki_jit.Prelude.{
  ℕ, ◌+◌, ◌≤◌, ◌<◌, ◌≡◌, refl, ◌∙◌, sym, ap, subst, none, some, List, [], ◌∷◌, ◌++◌, length, arith,
  length-append, append-nil, Option-cases, inl, inr,
}
use enoki_jit.Prelude.Result.{Result, ok, ◌>>=◌, bind_ok, ok-injective}
use enoki_jit.StringBuffer.{StringBuffer, make_room}
use enoki_jit.StringBuffer.Room.{terminate-fits, make_room-Roomy}
use enoki_jit.StringBuffer.Format.{
  Arg, number, text, var, Piece, plain, dollar, pieces, FitsArg, AllFit,
}
use enoki_jit.StringBuffer.Cuda.{
  Code, of_number, of_text, of_operand, Directive, next_directive, code_of, va_arg, cost, measure,
  emit, convert, fmt_cuda,
}
use enoki_jit.StringBuffer.Cuda.Emitted.{
  render_one, Emitted, both-Emitted, wrote_both, FitsDirective, emit-Emitted,
}

-- What a format stands for.
unfoldable pub render : List Piece → List Arg → List ℕ
unfolding render_one
render [] args = []
render (plain ch ∷ ps) args = (ch ∷ []) ++ render ps args
render (dollar d ∷ ps) args = elim (next_directive d args) [
  | none ↦ []
  | some (what, others) ↦ render_one what ++ render ps others
]

va_arg-Fits :
    (code : Code) (arg : Arg) (what : Directive)
    → va_arg code arg ≡ some what
    → FitsArg arg
    → FitsDirective what
unfolding va_arg FitsDirective
va_arg-Fits (of_number k) (number n) what e f = subst FitsDirective (some-injective _ _ e) tt
va_arg-Fits (of_number k) (text str) what e f = absurd cc
va_arg-Fits (of_number k) (var w) what e f = absurd cc
va_arg-Fits of_text (number n) what e f = absurd cc
va_arg-Fits of_text (text str) what e f = subst FitsDirective (some-injective _ _ e) tt
va_arg-Fits of_text (var w) what e f = absurd cc
va_arg-Fits (of_operand k) (number n) what e f = absurd cc
va_arg-Fits (of_operand k) (text str) what e f = absurd cc
va_arg-Fits (of_operand k) (var w) what e f = subst FitsDirective (some-injective _ _ e) f

next_directive-Fits :
    (d : ℕ) (args : List Arg) (what : Directive) (others : List Arg)
    → next_directive d args ≡ some (what, others)
    → AllFit args
    → FitsDirective what × AllFit others
unfolding next_directive
next_directive-Fits d [] what others e f = absurd cc
next_directive-Fits d (arg ∷ args) what others e f = elim (Option-cases (code_of d)) [
  | inl n ↦ absurd (ground arith)
  | inr (code, c) ↦ elim (Option-cases (va_arg code arg)) [
    | inl n ↦ absurd (ground arith)
    | inr (w, v) ↦
        let same : ◌≡◌ {A = Directive × List Arg} (w, args) (what, others) =
          some-injective _ _ (ground arith) in
        (
          va_arg-Fits code arg what (v ∙ ap (λ x. some x.0) same) f.0,
          subst AllFit (ap (λ x. x.1) same) f.1,
        )
  ]
]

abbrev Renders : List Piece → List Arg → ℕ → StringBuffer → Type 0
Renders ps args n buf = Emitted (render ps args) n buf (convert ps args buf)

-- The three functions at a directive.
module _ (d : ℕ) (ps : List Piece) (args others : List Arg) (what : Directive)
    (e : next_directive d args ≡ some (what, others)) where
  measure_dollar :
      (n : ℕ) (rest : List Arg)
      → measure (dollar d ∷ ps) args ≡ ok (n, rest)
      → (m : ℕ) × (measure ps others ≡ ok (m, rest)) × (cost what + m ≡ n)
  unfolding measure
  measure_dollar n rest h =
      let add : ℕ × List Arg → Result (ℕ × List Arg) = λ x. ok (cost what + x.0, x.1) in
      let run : (measure ps others >>= add) ≡ ok (n, rest) = ground (arith, e) in
      let ((m, left), e1, e2) = bind_ok (measure ps others) add _ run in
      let same = ok-injective _ _ e2 in (m, e1 ∙ ap (λ x. ok (m, x.1)) same, ap (λ x. x.0) same)

  convert_dollar :
      (buf : StringBuffer)
      → convert (dollar d ∷ ps) args buf ≡ (emit what buf >>= convert ps others)
  unfolding convert
  convert_dollar buf = ground (arith, e)

  render_dollar : render (dollar d ∷ ps) args ≡ render_one what ++ render ps others
  unfolding render
  render_dollar = ground (arith, e)

  Emitted-dollar :
      (m n : ℕ) (buf : StringBuffer)
      → cost what + m ≡ n
      → Emitted
          (render_one what ++ render ps others)
          (cost what + m)
          buf
          (emit what buf >>= convert ps others)
      → Renders (dollar d ∷ ps) args n buf
  Emitted-dollar m n buf same a = record {
    after = a.after;
    run = convert_dollar buf ∙ a.run;
    text = a.text ∙ ap (λ t. buf.text ++ t) (sym render_dollar);
    larger = a.larger;
    short = omega (arith, same, a.short, ap (λ t. length t) render_dollar);
  }

convert-Renders :
    (ps : List Piece) (args : List Arg) (n : ℕ) (rest : List Arg) (buf : StringBuffer)
    → measure ps args ≡ ok (n, rest)
    → AllFit args
    → length buf.text + n < buf.capacity
    → Renders ps args n buf
unfolding measure convert render
convert-Renders [] args n rest buf e f r = record {
  after = buf;
  run = refl;
  text = sym (append-nil buf.text);
  larger = omega arith;
  short = omega arith;
}
convert-Renders (plain ch ∷ ps) args n rest buf e f r =
    let ((m, others), e1, e2) = bind_ok (measure ps args) _ _ e in
    let same : 1 + m ≡ n = ap (λ x. x.0) (ok-injective _ _ e2) in
    subst (λ k. Renders (plain ch ∷ ps) args k buf) same
      (wrote_both (ch ∷ []) (render ps args) 1 m buf (convert ps args) (omega arith) (omega arith)
        (λ b1 q. convert-Renders ps args m others b1 e1 f q))
convert-Renders (dollar d ∷ ps) args n rest buf e f r =
    elim (Option-cases (next_directive d args)) [
      | inl none_there ↦ absurd (ground (arith, none_there))
      | inr ((what, others), there) ↦
          let (m, e1, same) = measure_dollar d ps args others what there n rest e in
          let (fits, fit) = next_directive-Fits d args what others there f in
          Emitted-dollar d ps args others what there m n buf same (
            both-Emitted (render_one what) (render ps others) (cost what) m buf (emit what buf)
              (convert ps others) (omega (arith, same))
              (emit-Emitted what buf fits (omega (arith, same)))
              (λ b1 q. convert-Renders ps others m rest b1 e1 fit q))
    ]

-- Where the arguments are those that the format asks for and their fields are values of the C types,
-- `fmt_cuda` succeeds for every buffer: the output is the format with each directive replaced by what
-- it stands for, no longer than the first phase reckons, and all of it is written within the capacity,
-- the zero at its end included.
pub fmt_cuda-Renders :
    (fmt : List ℕ) (args : List Arg) (n : ℕ) (buf : StringBuffer)
    → measure (pieces fmt) args ≡ ok (n, [])
    → AllFit args
    → (b' : StringBuffer) × (fmt_cuda fmt args buf ≡ ok b')
      × (b'.text ≡ buf.text ++ render (pieces fmt) args)
      × (length (render (pieces fmt) args) ≤ n)
      × (length b'.text < b'.capacity)
unfolding fmt_cuda
fmt_cuda-Renders fmt args n buf e f =
    let r = make_room-Roomy n buf in
    let a =
      convert-Renders (pieces fmt) args n [] (make_room n buf) e f
        (omega (arith, r.room, ap (λ t. length t) r.text)) in
    let grown = ap (λ t. t ++ render (pieces fmt) args) r.text in
    let room : length a.after.text < a.after.capacity = omega (
      arith,
      r.room,
      a.short,
      a.larger,
      ap (λ t. length t) r.text,
      ap (λ t. length t) a.text,
      length-append (make_room n buf).text (render (pieces fmt) args),
    ) in
    (a.after, rw e (rw a.run (terminate-fits a.after room)), a.text ∙ grown, a.short, room)
