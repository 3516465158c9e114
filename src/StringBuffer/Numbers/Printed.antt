-- ===== src/StringBuffer/Numbers/Printed.antt =====
-- src/strbuf.cpp: the digits that are printed read back as the number, and fit their space.
use native.Mathlib.Nat.{div-lt_iff_lt-mul, mul-le-mul_left, pow-suc, pow-zero, div-add-mod', mod-lt}
use enoki_jit.Prelude.{
  ℕ, zero, suc, ◌+◌, ◌-◌, ◌*◌, ◌/◌, ◌%◌, ◌^◌, ◌≤◌, ◌<◌, ◌≡◌, refl, ◌∙◌, sym, ap, subst, Bool, true,
  false, List, [], ◌∷◌, ◌++◌, length, rev, ltb, ◌==◌, if◌then◌else◌, arith, length-append,
  length-rev, append_one, Bool-cases, inl, inr,
}
use enoki_jit.Prelude.Result.{Result, ok, ◌>>=◌}
use enoki_jit.StringBuffer.{StringBuffer, make_room, put_unchecked}
use enoki_jit.StringBuffer.Room.{put_unchecked-fits, make_room-Roomy}
use enoki_jit.StringBuffer.Numbers.{
  num, put_digits, reverse_str, put_number_unchecked, put_u32, put_u64, put_x32, put_x64,
}
use enoki_jit.StringBuffer.Numbers.Reverse.{reverse_str-append}

-- The digit that a character stands for, and the number that a text stands for.
unfoldable pub digit : ℕ → ℕ
digit c = if ltb c 58 then c - 48 else c - 87

unfoldable pub read : ℕ → ℕ → List ℕ → ℕ
unfolding digit
read base n [] = n
read base n (c ∷ cs) = read base (n * base + digit c) cs

-- The digits of a number from the last one on.
unfoldable pub digits : ℕ → ℕ → ℕ → List ℕ
unfolding num
digits base zero value = []
digits base (suc fuel) value =
    num (value % base)
    ∷ elim (value / base == 0) [ true ↦ [] | false ↦ digits base fuel (value / base) ]

-- The text that the digits make.
unfoldable pub shown : ℕ → ℕ → List ℕ
shown base value = rev (digits base 64 value)

digit-num : (d : ℕ) → d < 16 → digit (num d) ≡ d
unfolding digit num
digit-num d h = ground arith

read-append :
    (base n c : ℕ) (cs : List ℕ) → read base n (cs ++ c ∷ []) ≡ read base n cs * base + digit c
unfolding read
read-append base n c [] = refl
read-append base n c (d ∷ cs) = read-append base (n * base + digit d) c cs

joined :
    (text : List ℕ) (c : ℕ) (rest ds : List ℕ)
    → ds ≡ c ∷ rest
    → (text ++ c ∷ []) ++ rest ≡ text ++ ds
joined text c rest ds e = append_one text c rest ∙ ap (λ l. text ++ l) (sym e)

choose_false {ℓ} :
    {A : Type ℓ} {b : Bool}
    → b ≡ false
    → (x y : A) → elim b as (λ c. A) [ true ↦ x | false ↦ y ] ≡ y
choose_false e x y = rw e

module _ (base : ℕ) (two : 2 ≤ base) (sixteen : base ≤ 16) where
  rest_small : (fuel value : ℕ) → value < 2 ^ suc fuel → value / base < 2 ^ fuel
  rest_small fuel value h =
      (div-lt_iff_lt-mul {k = base} {x = value} {y = 2 ^ fuel} (omega arith)).1
        (omega (arith, pow-suc 2 fuel, mul-le-mul_left {m = 2} {n = base} (2 ^ fuel) two))

  rest_short : (n value : ℕ) → value < base ^ suc n → value / base < base ^ n
  rest_short n value h =
      (div-lt_iff_lt-mul {k = base} {x = value} {y = base ^ n} (omega arith)).1
        (omega (arith, pow-suc base n))

  last_digit : (value : ℕ) → digit (num (value % base)) ≡ value % base
  last_digit value = digit-num (value % base) (omega (arith, mod-lt value {m = base} (omega arith)))

  read_one : (value : ℕ) → read base 0 (num (value % base) ∷ []) ≡ value % base
  unfolding read
  read_one value = omega (arith, last_digit value)

  read-digits :
      (fuel value : ℕ)
      → value < 2 ^ suc fuel
      → read base 0 (rev (digits base (suc fuel) value)) ≡ value
  unfolding digits
  read-digits zero value h =
      let zero_rest : value / base ≡ 0 = omega (arith, rest_small 0 value h) in
      ground (arith, read_one value, last_digit value, div-add-mod' value base, zero_rest)
  read-digits (suc fuel) value h = elim (Bool-cases (value / base == 0)) [
    | inl e ↦ ground (arith, read_one value, last_digit value, div-add-mod' value base)
    | inr n ↦ ground (
      arith,
      read-append base 0 (num (value % base)) (rev (digits base (suc fuel) (value / base))),
      read-digits fuel (value / base) (rest_small (suc fuel) value h),
      last_digit value,
      div-add-mod' value base,
    )
  ]

  length-digits :
      (fuel n value : ℕ) → value < base ^ suc n → length (digits base fuel value) ≤ suc n
  unfolding digits
  length-digits zero n value h = omega arith
  length-digits (suc fuel) zero value h =
      let zero_rest : value / base ≡ 0 = omega (arith, rest_short 0 value h, pow-zero base) in
      ground (arith, zero_rest)
  length-digits (suc fuel) (suc n) value h = elim (Bool-cases (value / base == 0)) [
    | inl e ↦ ground arith
    | inr e ↦ ground (arith, length-digits fuel n (value / base) (rest_short (suc n) value h))
  ]

  put_digits_more :
      (fuel value : ℕ) (b : StringBuffer)
      → value / base == 0 ≡ false
      → put_digits base (suc fuel) value b
        ≡ (put_unchecked (num (value % base) ∷ []) b >>= put_digits base fuel (value / base))
  unfolding put_digits
  put_digits_more fuel value b e =
      ap
        (λ (rest : StringBuffer → Result StringBuffer).
          put_unchecked (num (value % base) ∷ []) b >>= rest)
        (λ i b1. choose_false e (ok b1) (put_digits base fuel (value / base) b1) i)

  digits_more :
      (fuel value : ℕ)
      → value / base == 0 ≡ false
      → digits base (suc fuel) value ≡ num (value % base) ∷ digits base fuel (value / base)
  unfolding digits
  digits_more fuel value e = ground arith

  put_digits_step :
      (fuel value : ℕ) (b : StringBuffer)
      → value / base == 0 ≡ false
      → length b.text + suc (length (digits base (suc fuel) (value / base))) ≤ b.capacity
      → ((b1 : StringBuffer)
          → length b1.text + length (digits base (suc fuel) (value / base)) ≤ b1.capacity
          → put_digits base (suc fuel) (value / base) b1
            ≡ ok (record b1 { text = b1.text ++ digits base (suc fuel) (value / base) }))
      → put_digits base (suc (suc fuel)) value b
        ≡ ok (record b { text = b.text ++ digits base (suc (suc fuel)) value })
  put_digits_step fuel value b e r others =
      let c = num (value % base) in
      let rest = digits base (suc fuel) (value / base) in
      let b1 : StringBuffer = record b { text = b.text ++ c ∷ [] } in
      put_digits_more (suc fuel) value b e
      ∙ ap (λ (x : Result StringBuffer). x >>= put_digits base (suc fuel) (value / base))
          (put_unchecked-fits (c ∷ []) b (omega arith))
      ∙ others b1 (omega (arith, length-append b.text (c ∷ [])))
      ∙ ap (λ t. ok (record b { text = t }))
          (joined b.text c rest _ (digits_more (suc fuel) value e))

  put_digits-digits :
      (fuel value : ℕ) (b : StringBuffer)
      → value < 2 ^ suc fuel
      → length b.text + length (digits base (suc fuel) value) ≤ b.capacity
      → put_digits base (suc fuel) value b
        ≡ ok (record b { text = b.text ++ digits base (suc fuel) value })
  unfolding digits put_digits
  put_digits-digits zero value b h r =
      let zero_rest : value / base ≡ 0 = omega (arith, rest_small 0 value h) in
      ground (arith, zero_rest, put_unchecked-fits (num (value % base) ∷ []) b)
  put_digits-digits (suc fuel) value b h r = elim (Bool-cases (value / base == 0)) [
    | inl e ↦ ground (arith, put_unchecked-fits (num (value % base) ∷ []) b)
    | inr e ↦
        put_digits_step fuel value b e
          (subst (λ ds. length b.text + length ds ≤ b.capacity) (digits_more (suc fuel) value e) r)
          (λ b1 q. put_digits-digits fuel (value / base) b1 (rest_small (suc fuel) value h) q)
  ]

  length-digits_long : (fuel value : ℕ) → 1 ≤ length (digits base (suc fuel) value)
  unfolding digits
  length-digits_long fuel value = omega arith

  -- What is printed of `value`: at most `suc n` characters, which read back as `value`.
  pub record Printed (n value : ℕ) (shown : List ℕ) : Type 0 where
    pub reads : read base 0 shown ≡ value
    pub long : 1 ≤ length shown
    pub short : length shown ≤ n

  pub shown-Printed :
      (n value : ℕ)
      → value < 2 ^ 64
      → value < base ^ suc n
      → Printed (suc n) value (shown base value)
  unfolding shown
  shown-Printed n value h k = record {
    reads = read-digits 63 value h;
    long = omega (arith, length-rev (digits base 64 value), length-digits_long 63 value);
    short = omega (arith, length-rev (digits base 64 value), length-digits 64 n value k);
  }

  pub put_number_unchecked-shown :
      (n value : ℕ) (b : StringBuffer)
      → value < 2 ^ 64
      → value < base ^ suc n
      → length b.text + suc n ≤ b.capacity
      → put_number_unchecked base value b ≡ ok (record b { text = b.text ++ shown base value })
  unfolding put_number_unchecked shown
  put_number_unchecked-shown n value b h k r =
      let ds = digits base 64 value in
      ap
        (λ (r : Result StringBuffer).
          r >>= (λ b1. ok (record b1 { text = reverse_str (length b.text) b1.text })))
        (put_digits-digits 63 value b h (omega (arith, length-digits 64 n value k)))
      ∙ ap (λ t. ok (record b { text = t }))
          (reverse_str-append b.text ds (length-digits_long 63 value))

-- A number that was printed behind the text of `b`.
abbrev pub Shows : (StringBuffer → Result StringBuffer) → ℕ → ℕ → ℕ → StringBuffer → Type 0
Shows put base n value b =
    (b' : StringBuffer) × (shown : List ℕ) × (put b ≡ ok b')
    × (b'.text ≡ b.text ++ shown)
    × (read base 0 shown ≡ value)
    × (length shown ≤ n)

-- Room was made for the number.
put_number-Shows :
    (base n value : ℕ) (b : StringBuffer)
    → 2 ≤ base
    → base ≤ 16
    → value < 2 ^ 64
    → value < base ^ suc n
    → Shows (λ b. put_number_unchecked base value (make_room (suc n) b)) base (suc n) value b
put_number-Shows base n value b t s h k =
    let r = make_room-Roomy (suc n) b in
    let room : length (make_room (suc n) b).text + suc n ≤ (make_room (suc n) b).capacity =
      omega (arith, r.room, ap (λ x. length x) r.text) in
    let p = shown-Printed base t s n value h k in
    (
      _,
      shown base value,
      put_number_unchecked-shown base t s n value (make_room (suc n) b) h k room,
      ap (λ x. x ++ shown base value) r.text,
      p.reads,
      p.short,
    )

-- The four functions that put a number succeed for every buffer: they add at most 10, 20, 8 and 16
-- characters, which read back as the number in base 10 or 16.
pub put_numbers-Shows :
    (narrow wide : ℕ) (b : StringBuffer)
    → narrow < 2 ^ 32
    → wide < 2 ^ 64
    → Shows (put_u32 narrow) 10 10 narrow b
      × Shows (put_u64 wide) 10 20 wide b
      × Shows (put_x32 narrow) 16 8 narrow b
      × Shows (put_x64 wide) 16 16 wide b
unfolding put_u32 put_u64 put_x32 put_x64
put_numbers-Shows narrow wide b h k = (
  put_number-Shows 10 9 narrow b (omega arith) (omega arith) (omega arith) (omega arith),
  put_number-Shows 10 19 wide b (omega arith) (omega arith) (omega arith) (omega arith),
  put_number-Shows 16 7 narrow b (omega arith) (omega arith) (omega arith) (omega arith),
  put_number-Shows 16 15 wide b (omega arith) (omega arith) (omega arith) (omega arith),
)
