-- ===== src/StringBuffer/Llvm/Write/Groups.antt =====
-- src/strbuf.cpp: the alternatives `{a|b}` and `{a}` of a format.
use enoki_jit.Prelude.{
  ℕ, ◌+◌, ◌≤◌, ◌≡◌, refl, ◌∙◌, sym, ap, Bool, true, false, List, [], ◌∷◌, ◌++◌, length, ◌==◌, ◌||◌,
  codes, arith, length-append, append_one, append-nil, if◌then◌else◌, if_true, if_false, inl, inr,
  Bool-cases,
}
use enoki_jit.Prelude.Result.{Result, ok, ◌>>=◌}
use enoki_jit.StringBuffer.{StringBuffer, put_unchecked}
use enoki_jit.StringBuffer.Room.{put_unchecked-fits}
use enoki_jit.StringBuffer.Moves.{rewind_to-keeps}
use enoki_jit.StringBuffer.Format.{Arg, Piece, plain}
use enoki_jit.StringBuffer.Llvm.{Target}
use enoki_jit.StringBuffer.Llvm.Write.{step_plain, write_pieces}

-- Characters that stand for themselves.
abbrev pub is_special : ℕ → Bool
is_special c = c == b'{' || c == b'|' || c == b'}'

abbrev pub Ordinary : List ℕ → Type 0
Ordinary [] = Unit {0}
Ordinary (c ∷ cs) = (is_special c ≡ false) × Ordinary cs

abbrev pub chars : List ℕ → List Piece → List Piece
chars [] ps = ps
chars (c ∷ cs) ps = plain c ∷ chars cs ps

-- What a `}` writes where pointers are opaque.
pointer_word :
    (opaque : Bool) (b : StringBuffer)
    → (opaque ≡ true → length b.text + 3 ≤ b.capacity)
    → (if opaque then put_unchecked (codes "ptr") b else ok b)
      ≡ ok (record b { text = if opaque then b.text ++ codes "ptr" else b.text })
pointer_word true b r = put_unchecked-fits (codes "ptr") b (r refl)
pointer_word false b r = refl

module _ (target : Target) where
  write_chars :
      (cs : List ℕ) (ps : List Piece) (args : List Arg) (offset : ℕ) (b : StringBuffer)
      → Ordinary cs
      → length b.text + length cs ≤ b.capacity
      → write_pieces target (chars cs ps) args offset b
        ≡ write_pieces target ps args offset (record b { text = b.text ++ cs })
  unfolding write_pieces step_plain
  write_chars [] ps args offset b o r =
      ap (λ t. write_pieces target ps args offset (record b { text = t })) (sym (append-nil b.text))
  write_chars (c ∷ cs) ps args offset b o r =
      let b1 : StringBuffer = record b { text = b.text ++ c ∷ [] } in
      let rest =
        write_chars cs ps args offset b1 o.1 (omega (arith, r, length-append b.text (c ∷ []))) in
      let done : write_pieces target (plain c ∷ chars cs ps) args offset b
          ≡ write_pieces target (chars cs ps) args offset b1 =
        ground (arith, o.0, put_unchecked-fits (c ∷ []) b) in
      done
      ∙ rest
      ∙ ap (λ t. write_pieces target ps args offset (record b { text = t }))
          (append_one b.text c cs)

  -- A `{` where pointers are opaque remembers where it stands.
  opened :
      (ps : List Piece) (args : List Arg) (b : StringBuffer)
      → write_pieces target (plain b'{' ∷ ps) args 0 b
        ≡ write_pieces target ps args
            (if target.jitc_llvm_opaque_pointers then length b.text else 0)
            b
  unfolding write_pieces step_plain
  opened ps args b = refl

  -- A `|` behind such a `{` drops what was written since, another one remembers where it stands.
  dropped :
      (front back : List ℕ) (ps : List Piece) (args : List Arg) (b : StringBuffer)
      → b.text ≡ front ++ back
      → 1 ≤ length front
      → write_pieces target (plain b'|' ∷ ps) args (length front) b
        ≡ write_pieces target ps args 0 (record b { text = front })
  unfolding write_pieces step_plain
  dropped front back ps args b e h =
      let later : (length front == 0) ≡ false = ground arith in
      rw (later, rewind_to-keeps front back (length front) b e refl) refl

  marked :
      (ps : List Piece) (args : List Arg) (b : StringBuffer)
      → write_pieces target (plain b'|' ∷ ps) args 0 b
        ≡ write_pieces target ps args (length b.text) b
  unfolding write_pieces step_plain
  marked ps args b = refl

  -- A `}` drops what was written since the position that is remembered, if there is one.
  closed :
      (ps : List Piece) (args : List Arg) (b : StringBuffer)
      → write_pieces target (plain b'}' ∷ ps) args 0 b ≡ write_pieces target ps args 0 b
  unfolding write_pieces step_plain
  closed ps args b = refl

  closed_back :
      (front back : List ℕ) (ps : List Piece) (args : List Arg) (b : StringBuffer)
      → b.text ≡ front ++ back
      → 1 ≤ length front
      → (target.jitc_llvm_opaque_pointers ≡ true → length front + 3 ≤ b.capacity)
      → write_pieces target (plain b'}' ∷ ps) args (length front) b
        ≡ write_pieces target ps args 0 (record b {
          text = if target.jitc_llvm_opaque_pointers then front ++ codes "ptr" else front;
        })
  unfolding write_pieces step_plain
  closed_back front back ps args b e h r =
      let later : (length front == 0) ≡ false = ground arith in
      let keep : StringBuffer → Result (ℕ × StringBuffer) = λ b2. ok (0, b2) in
      let go : ℕ × StringBuffer → Result StringBuffer = λ x. write_pieces target ps args x.0 x.1 in
      rw (later, rewind_to-keeps front back (length front) b e refl)
        (ap (λ (r : Result StringBuffer). (r >>= keep) >>= go)
          (pointer_word target.jitc_llvm_opaque_pointers (record b { text = front }) r))

module _ (target : Target) (x y : List ℕ) (ps : List Piece) (args : List Arg) (b : StringBuffer)
    (ox : Ordinary x) (oy : Ordinary y) (h : 1 ≤ length b.text)
    (r : length b.text + (length x + length y + 3) ≤ b.capacity) where
  abbrev after : List ℕ → Result StringBuffer
  after t = write_pieces target ps args 0 (record b { text = b.text ++ t })

  abbrev either_of : List Piece
  either_of = plain b'{' ∷ chars x (plain b'|' ∷ chars y (plain b'}' ∷ ps))

  abbrev only_typed : List Piece
  only_typed = plain b'{' ∷ chars x (plain b'}' ∷ ps)

  abbrev with_x : StringBuffer
  with_x = record b { text = b.text ++ x }

  size_x : length with_x.text ≡ length b.text + length x
  size_x = length-append b.text x

  opens_at :
      (o : Bool)
      → target.jitc_llvm_opaque_pointers ≡ o
      → (rest : List Piece)
      → write_pieces target (plain b'{' ∷ chars x rest) args 0 b
        ≡ write_pieces target rest args (if o then length b.text else 0) with_x
  opens_at o e rest =
      opened target (chars x rest) args b
      ∙ ap (λ k. write_pieces target (chars x rest) args (if k then length b.text else 0) b) e
      ∙ write_chars target x rest args (if o then length b.text else 0) b ox (omega (arith, r))

  opaque_either :
      target.jitc_llvm_opaque_pointers ≡ true → write_pieces target either_of args 0 b ≡ after y
  opaque_either e =
      opens_at true e (plain b'|' ∷ chars y (plain b'}' ∷ ps))
      ∙ dropped target b.text x (chars y (plain b'}' ∷ ps)) args with_x refl h
      ∙ write_chars target y (plain b'}' ∷ ps) args 0 b oy (omega (arith, r))
      ∙ closed target ps args (record b { text = b.text ++ y })

  typed_either :
      target.jitc_llvm_opaque_pointers ≡ false → write_pieces target either_of args 0 b ≡ after x
  typed_either e =
      opens_at false e (plain b'|' ∷ chars y (plain b'}' ∷ ps))
      ∙ marked target (chars y (plain b'}' ∷ ps)) args with_x
      ∙ write_chars target y (plain b'}' ∷ ps) args (length with_x.text) with_x oy
          (omega (arith, r, size_x))
      ∙ closed_back target with_x.text y ps args (record b { text = with_x.text ++ y }) refl
          (omega (arith, h, size_x)) (λ t. absurd cc)
      ∙ ap
          (λ k.
            write_pieces target ps args 0
              (record b { text = if k then with_x.text ++ codes "ptr" else with_x.text }))
          e

  opaque_only :
      target.jitc_llvm_opaque_pointers ≡ true
      → write_pieces target only_typed args 0 b ≡ after (codes "ptr")
  opaque_only e =
      opens_at true e (plain b'}' ∷ ps)
      ∙ closed_back target b.text x ps args with_x refl h (λ t. omega (arith, r))
      ∙ ap
          (λ k.
            write_pieces target ps args 0
              (record b { text = if k then b.text ++ codes "ptr" else b.text }))
          e

  typed_only :
      target.jitc_llvm_opaque_pointers ≡ false → write_pieces target only_typed args 0 b ≡ after x
  typed_only e = opens_at false e (plain b'}' ∷ ps) ∙ closed target ps args with_x

  -- Behind a text, where there is room: `{x|y}` comes to `y` where pointers are opaque, otherwise to
  -- `x`, and `{x}` to `ptr` or `x`; the rest of the format is then written as usual.
  pub write_pieces_chooses :
      (write_pieces target (plain b'{' ∷ chars x (plain b'|' ∷ chars y (plain b'}' ∷ ps))) args 0 b
        ≡ write_pieces target ps args 0
            (record b { text = b.text ++ (if target.jitc_llvm_opaque_pointers then y else x) }))
      × (write_pieces target (plain b'{' ∷ chars x (plain b'}' ∷ ps)) args 0 b
          ≡ write_pieces target ps args 0 (record b {
            text = b.text ++ (if target.jitc_llvm_opaque_pointers then codes "ptr" else x);
          }))
  write_pieces_chooses = elim (Bool-cases target.jitc_llvm_opaque_pointers) [
    | inl e ↦ (
      opaque_either e ∙ ap after (sym (if_true y x e)),
      opaque_only e ∙ ap after (sym (if_true (codes "ptr") x e)),
    )
    | inr e ↦ (
      typed_either e ∙ ap after (sym (if_false y x e)),
      typed_only e ∙ ap after (sym (if_false (codes "ptr") x e)),
    )
  ]
