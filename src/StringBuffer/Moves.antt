-- ===== src/StringBuffer/Moves.antt =====
-- src/strbuf.cpp: `move_suffix` and `delete_trailing_commas` inside the text.
use enoki_jit.Prelude.{
  ℕ, zero, suc, ◌+◌, ◌-◌, ◌≤◌, ◌≡◌, refl, ◌∙◌, sym, ap, List, [], ◌∷◌, ◌++◌, length, take, drop,
  take-append, drop-append, repeat, arith, length-append, length-repeat, append_assoc, append-nil,
}
use enoki_jit.Prelude.Result.{ok}
use enoki_jit.StringBuffer.{StringBuffer, move_block, move_suffix, rewind_to}
use enoki_jit.StringBuffer.Room.{put-Appended}

module _ {ℓ} {A : Type ℓ} where
  take_at : (xs ys : List A) (n : ℕ) → n ≡ length xs → take n (xs ++ ys) ≡ xs
  take_at xs ys n e = rw e (take-append xs ys)

  drop_at : (xs ys : List A) (n : ℕ) → n ≡ length xs → drop n (xs ++ ys) ≡ ys
  drop_at xs ys n e = rw e (drop-append xs ys)

  take_all : (xs : List A) → take (length xs) xs ≡ xs
  take_all [] = refl
  take_all (x ∷ xs) = ap (λ l. x ∷ l) (take_all xs)

  drop_all : (xs : List A) (n : ℕ) → length xs ≤ n → drop n xs ≡ []
  drop_all [] zero h = refl
  drop_all [] (suc n) h = refl
  drop_all (x ∷ xs) zero h = absurd (omega arith)
  drop_all (x ∷ xs) (suc n) h = drop_all xs n (omega arith)

  length-take : (xs : List A) (n : ℕ) → n ≤ length xs → length (take n xs) ≡ n
  length-take xs zero h = refl
  length-take [] (suc n) h = absurd (omega arith)
  length-take (x ∷ xs) (suc n) h = ap suc (length-take xs n (omega arith))

  take_past : (xs ys : List A) (n : ℕ) → take (length xs + n) (xs ++ ys) ≡ xs ++ take n ys
  take_past [] ys n = ap (λ k. take k ys) (omega arith)
  take_past (x ∷ xs) ys n =
      let next : suc (length xs) + n ≡ suc (length xs + n) = omega arith in
      ap (λ k. take k (x ∷ (xs ++ ys))) next ∙ ap (λ l. x ∷ l) (take_past xs ys n)

-- The parts `a`, `m` and `s`, with the free bytes `z` behind them.
module _ (a m s z : List ℕ) (size : length z ≡ length s) where
  abbrev between : List ℕ
  between = take (length s) ((m ++ s) ++ z)

  -- First the text behind the target moves up by the length of the suffix.
  made_space :
      move_block (length a + length s) (length a) (length m + length s) ((a ++ (m ++ s)) ++ z)
      ≡ (a ++ between) ++ (m ++ s)
  unfolding move_block
  made_space =
      let front =
        ap (λ t. take (length a + length s) t) (append_assoc a (m ++ s) z)
        ∙ take_past a ((m ++ s) ++ z) (length s) in
      let inner =
        ap (λ t. take (length m + length s) (drop (length a) t)) (append_assoc a (m ++ s) z)
        ∙ ap (λ t. take (length m + length s) t) (drop-append a ((m ++ s) ++ z))
        ∙ take_at (m ++ s) z (length m + length s) (sym (length-append m s)) in
      let back = drop_all ((a ++ (m ++ s)) ++ z) (length a + length s + (length m + length s)) (
        omega (
          arith,
          size,
          length-append (a ++ (m ++ s)) z,
          length-append a (m ++ s),
          length-append m s,
        )) in
      rw (front, inner, back) (append-nil ((a ++ between) ++ (m ++ s)))

  -- Then the suffix is copied to the target.
  filled_space :
      move_block (length a) (length a + length m + length s) (length s) ((a ++ between) ++ (m ++ s))
      ≡ (a ++ s) ++ (m ++ s)
  unfolding move_block
  filled_space =
      let wide : length between ≡ length s =
        length-take ((m ++ s) ++ z) (length s)
          (omega (arith, size, length-append (m ++ s) z, length-append m s)) in
      let moved = (a ++ between) ++ (m ++ s) in
      let front =
        ap (λ t. take (length a) t) (append_assoc a between (m ++ s))
        ∙ take-append a (between ++ (m ++ s)) in
      let inner =
        ap (λ t. take (length s) (drop (length a + length m + length s) t))
          (sym (append_assoc (a ++ between) m s))
        ∙ ap (λ t. take (length s) t)
            (drop_at ((a ++ between) ++ m) s (length a + length m + length s)
              (omega (arith, wide, length-append (a ++ between) m, length-append a between)))
        ∙ take_all s in
      let back =
        drop_at (a ++ between) (m ++ s) (length a + length s)
          (omega (arith, wide, length-append a between)) in
      rw (front, inner, back) refl

  two_moves :
      (buffer_size suffix_size rest : ℕ) (t : List ℕ)
      → t ≡ (a ++ (m ++ s)) ++ z
      → buffer_size ≡ length a + length m + length s
      → suffix_size ≡ length s
      → rest ≡ length m + length s
      → move_block
          (length a)
          buffer_size
          suffix_size
          (move_block (length a + suffix_size) (length a) rest t)
        ≡ (a ++ s) ++ (m ++ s)
  two_moves buffer_size suffix_size rest t e1 e2 e3 e4 =
      rw (e1, e2, e3, e4) (rw made_space filled_space)

pub rewind_to-keeps :
    (front back : List ℕ) (pos : ℕ) (b : StringBuffer)
    → b.text ≡ front ++ back
    → pos ≡ length front
    → rewind_to pos b ≡ ok (record b { text = front })
unfolding rewind_to
rewind_to-keeps front back pos b e f =
    let kept : take pos b.text ≡ front = ap (λ t. take pos t) e ∙ take_at front back pos f in
    let inside : pos ≤ length b.text =
      omega (arith, f, ap (λ t. length t) e, length-append front back) in
    ground (arith, kept, inside)

-- The suffix `s` of a text moves in front of `m`, whatever the room in the buffer; nothing is lost and
-- nothing else changes place.
pub move_suffix-moves :
    (a m s : List ℕ) (capacity : ℕ)
    → let b : StringBuffer = record { text = a ++ (m ++ s); capacity = capacity } in
      (b' : StringBuffer) × (move_suffix (length a + length m) (length a) b ≡ ok b')
      × (b'.text ≡ a ++ (s ++ m))
      × (capacity ≤ b'.capacity)
unfolding move_suffix rewind_to
move_suffix-moves a m s capacity =
    let b : StringBuffer = record { text = a ++ (m ++ s); capacity = capacity } in
    let whole : length b.text ≡ length a + length m + length s =
      omega (arith, length-append a (m ++ s), length-append m s) in
    let suffix_size = length b.text - (length a + length m) in
    let (b1, run, grown) = (put-Appended [] 0 suffix_size b).1 in
    let sized : suffix_size ≡ length s = omega (arith, whole) in
    let zeros : List ℕ = repeat suffix_size 0 in
    let texts =
      two_moves a m s zeros (length-repeat suffix_size 0 ∙ sized) (length b.text) suffix_size
        (length b.text - length a) b1.text grown.text whole sized (omega (arith, whole)) in
    let moved =
      move_block (length a) (length b.text) suffix_size
        (move_block (length a + suffix_size) (length a) (length b.text - length a) b1.text) in
    let front = (a ++ s) ++ m in
    (
      record b1 { text = front },
      rw run (
          rewind_to-keeps front s (length b.text) (record b1 { text = moved })
            (texts ∙ sym (append_assoc (a ++ s) m s))
            (omega (arith, whole, length-append (a ++ s) m, length-append a s))),
      append_assoc a s m,
      grown.larger,
    )
