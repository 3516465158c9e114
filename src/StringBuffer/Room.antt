-- ===== src/StringBuffer/Room.antt =====
-- src/strbuf.cpp: the buffer grows by powers of two until the text fits.
use native.Mathlib.Nat.{pow-suc}
use enoki_jit.Prelude.{
  ℕ, zero, suc, ◌+◌, ◌*◌, ◌^◌, ◌≤◌, ◌<◌, ◌≡◌, refl, ◌∙◌, sym, subst, ap, List, ◌++◌, length, repeat,
  ltb, leb, ◌==◌, if◌then◌else◌, if_true, if_false, inl, inr, Bool-cases, arith, length-append,
  length-repeat,
}
use enoki_jit.Prelude.Result.{ok, ◌>>=◌}
use enoki_jit.StringBuffer.{
  StringBuffer, grow, expand, lacks_room, make_room, put_unchecked, terminate, put, put_copies,
}

doubled : (c k : ℕ) → c * 2 * 2 ^ k ≡ c * 2 ^ suc k
doubled c k = grind (arith, pow-suc 2 k)

grow-Doubles : (fuel needed capacity : ℕ) → (k : ℕ) × (grow fuel needed capacity ≡ capacity * 2 ^ k)
unfolding grow
grow-Doubles zero needed capacity = (0, omega arith)
grow-Doubles (suc fuel) needed capacity = elim (Bool-cases (ltb capacity needed)) [
  | inl e ↦
      let (k, d) = grow-Doubles fuel needed (capacity * 2) in
      (suc k, ground (arith, d, doubled capacity k))
  | inr e ↦ (0, ground arith)
]

-- Enough fuel: one for each byte that is needed.
grow-enough :
    (fuel needed capacity : ℕ)
    → 1 ≤ capacity
    → needed ≤ fuel + capacity
    → needed ≤ grow fuel needed capacity
unfolding grow
grow-enough zero needed capacity a b = omega arith
grow-enough (suc fuel) needed capacity a b =
    ground (arith, grow-enough fuel needed (capacity * 2) (omega arith) (omega arith))

grow-le : (fuel needed capacity : ℕ) → capacity ≤ grow fuel needed capacity
unfolding grow
grow-le zero needed capacity = omega arith
grow-le (suc fuel) needed capacity = ground (arith, grow-le fuel needed (capacity * 2))

-- The buffer `b'` has the text of `b` and room for `n` more bytes and a zero.
pub record Roomy (n : ℕ) (b b' : StringBuffer) : Type 0 where
  pub text : b'.text ≡ b.text
  pub larger : b.capacity ≤ b'.capacity
  pub room : length b.text + n < b'.capacity
  -- A power of two times the old capacity, or times 1 where there was no buffer.
  pub doublings : ℕ
  pub doubles : b'.capacity ≡ (if b.capacity == 0 then 1 else b.capacity) * 2 ^ doublings

pub expand-Roomy : (n : ℕ) (b : StringBuffer) → Roomy n b (expand n b)
unfolding expand
expand-Roomy n b =
    let start = if b.capacity == 0 then 1 else b.capacity in
    let needed = length b.text + (n + 1) in
    let positive : 1 ≤ start = ground arith in
    let above : b.capacity ≤ start = ground arith in
    let (k, d) = grow-Doubles needed needed start in
    record {
      text = refl;
      larger = omega (arith, grow-le needed needed start);
      room = omega (arith, grow-enough needed needed start positive (omega arith));
      doublings = k;
      doubles = d;
    }

pub make_room-Roomy : (n : ℕ) (b : StringBuffer) → Roomy n b (make_room n b)
unfolding make_room lacks_room
make_room-Roomy n b = elim (Bool-cases (leb b.capacity (length b.text + n))) [
  | inl e ↦ subst (Roomy n b) (sym (if_true _ _ e)) (expand-Roomy n b)
  | inr e ↦ subst (Roomy n b) (sym (if_false _ _ e)) (record {
    text = refl;
    larger = omega arith;
    room = ground arith;
    doublings = 0;
    doubles = ground arith;
  })
]

-- Where the text fits, it is written; where it leaves room for a zero, that is too.
pub put_unchecked-fits :
    (str : List ℕ) (b : StringBuffer)
    → length b.text + length str ≤ b.capacity
    → put_unchecked str b ≡ ok (record b { text = b.text ++ str })
unfolding put_unchecked
put_unchecked-fits str b h = ground arith

pub terminate-fits : (b : StringBuffer) → length b.text < b.capacity → terminate b ≡ ok b
unfolding terminate
terminate-fits b h = ground arith

-- Room was made for `n` bytes, and a text of that length was written and ended.
written :
    (n : ℕ) (str : List ℕ) (b b' : StringBuffer)
    → length str ≡ n
    → Roomy n b b'
    → (do b1 ← put_unchecked str b'; terminate b1) ≡ ok (record b' { text = b.text ++ str })
written n str b b' e r =
    let same = ap (λ t. length t) r.text in
    let full : length (b'.text ++ str) < b'.capacity =
      omega (arith, r.room, length-append b'.text str, same) in
    rw (put_unchecked-fits str b' (omega (arith, r.room, same))) (
      terminate-fits (record b' { text = b'.text ++ str }) full
      ∙ ap (λ t. ok (record b' { text = t ++ str })) r.text)

-- The text grows by exactly `str`, in a buffer that holds a zero behind it.
pub record Appended (str : List ℕ) (b b' : StringBuffer) : Type 0 where
  pub text : b'.text ≡ b.text ++ str
  pub larger : b.capacity ≤ b'.capacity
  pub room : length b'.text < b'.capacity
  pub doublings : ℕ
  pub doubles : b'.capacity ≡ (if b.capacity == 0 then 1 else b.capacity) * 2 ^ doublings

pub Roomy-Appended :
    (str : List ℕ) (b b' : StringBuffer)
    → Roomy (length str) b b'
    → Appended str b (record b' { text = b.text ++ str })
Roomy-Appended str b b' r = record {
  text = refl;
  larger = r.larger;
  room = omega (arith, r.room, length-append b.text str);
  doublings = r.doublings;
  doubles = r.doubles;
}

-- Putting a text or copies of a character succeeds for every buffer, also one without storage: the
-- text grows by exactly that, the capacity by a power of two, and there is room for a zero.
pub put-Appended :
    (str : List ℕ) (c count : ℕ) (b : StringBuffer)
    → ((b' : StringBuffer) × (put str b ≡ ok b') × Appended str b b')
      × ((b' : StringBuffer) × (put_copies c count b ≡ ok b') × Appended (repeat count c) b b')
unfolding put put_copies
put-Appended str c count b =
    let r = make_room-Roomy (length str) b in
    let q = make_room-Roomy count b in
    let size = length-repeat count c in
    (
      (_, written (length str) str b _ refl r, Roomy-Appended str b _ r),
      (
        _,
        written count (repeat count c) b _ size q,
        Roomy-Appended (repeat count c) b _
            (subst (λ n. Roomy n b (make_room count b)) (sym size) q),
      ),
    )
