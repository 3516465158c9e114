-- ===== src/StringBuffer/Numbers/Reverse.antt =====
-- src/strbuf.cpp: `reverse_str` turns the end of a text around.
use enoki_jit.Prelude.{
  ℕ, zero, suc, ◌+◌, ◌-◌, ◌≤◌, ◌<◌, ◌≡◌, ◌∙◌, sym, ◌&&◌, Option, List, ◌++◌, length, get_elem?, set,
  rev, ltb, leb, ◌==◌, if◌then◌else◌, arith, get_elem?-set, length-set, get_elem?-some,
  get_elem?-append, get_elem?-rev, get_elem?-none, length-rev, length-append, list_ext, Bool-cases,
  if_true, if_false, ap, Option-cases, inl, inr,
}
use enoki_jit.StringBuffer.Numbers.{swap_at, swap_ends, reverse_str}

length-swap_at : (s e : ℕ) (xs : List ℕ) → length (swap_at s e xs) ≡ length xs
unfolding swap_at
length-swap_at s e xs = elim (Option-cases (get_elem? xs s)) [
  | inl n ↦ ground arith
  | inr (a, p) ↦ elim (Option-cases (get_elem? xs e)) [
    | inl n ↦ ground arith
    | inr (b, q) ↦ ground (arith, length-set (set xs s b) e a, length-set xs s b)
  ]
]

-- The elements after a swap.
get_elem?-swap_at :
    (s e : ℕ) (xs : List ℕ) (i : ℕ)
    → s < length xs
    → e < length xs
    → get_elem? (swap_at s e xs) i
      ≡ (if i == e then get_elem? xs s else (if i == s then get_elem? xs e else get_elem? xs i))
unfolding swap_at
get_elem?-swap_at s e xs i h k =
    let (a, p) = get_elem?-some xs s h in
    let (b, q) = get_elem?-some xs e k in
    ground
      (arith, p, q, get_elem?-set (set xs s b) e i a, get_elem?-set xs s i b, length-set xs s b)

-- Element `i` of a text whose part from `s` to `e` was turned around.
abbrev turned : ℕ → ℕ → List ℕ → ℕ → Option ℕ
turned s e xs i = if leb s i && leb i e then get_elem? xs (s + e - i) else get_elem? xs i

turned_idle : (s e : ℕ) (xs : List ℕ) (i : ℕ) → e ≤ s → turned s e xs i ≡ get_elem? xs i
turned_idle s e xs i h = elim (Bool-cases (leb s i && leb i e)) [
  | inl c ↦ let same : s + e - i ≡ i = ground arith in if_true _ _ c ∙ ap (get_elem? xs) same
  | inr c ↦ if_false _ _ c
]

mirror_low : (s e : ℕ) (xs : List ℕ) (i : ℕ) → i ≡ s → get_elem? xs (s + e - i) ≡ get_elem? xs e
mirror_low s e xs i h = let m : s + e - i ≡ e = omega arith in ap (get_elem? xs) m

mirror_high : (s e : ℕ) (xs : List ℕ) (i : ℕ) → i ≡ e → get_elem? xs (s + e - i) ≡ get_elem? xs s
mirror_high s e xs i h = let m : s + e - i ≡ s = omega arith in ap (get_elem? xs) m

turned_step :
    (s e : ℕ) (xs : List ℕ) (i : ℕ)
    → s < e
    → e < length xs
    → turned (s + 1) (e - 1) (swap_at s e xs) i ≡ turned s e xs i
turned_step s e xs i h k =
    let mirror : s + 1 + (e - 1) - i ≡ s + e - i = omega arith in
    ground (
      arith,
      ap (get_elem? (swap_at s e xs)) mirror,
      get_elem?-swap_at s e xs i (omega arith) k,
      get_elem?-swap_at s e xs (s + e - i) (omega arith) k,
      mirror_low s e xs i,
      mirror_high s e xs i,
    )

swap_ends-turned :
    (fuel s e : ℕ) (xs : List ℕ) (i : ℕ)
    → e < length xs
    → e < fuel + s + 1
    → get_elem? (swap_ends fuel s e xs) i ≡ turned s e xs i
unfolding swap_ends
swap_ends-turned zero s e xs i h f = sym (turned_idle s e xs i (omega arith))
swap_ends-turned (suc fuel) s e xs i h f = elim (Bool-cases (ltb s e)) [
  | inl lt ↦
      let below : s < e = ground arith in
      ground (
        arith,
        swap_ends-turned fuel (s + 1) (e - 1) (swap_at s e xs) i
            (omega (arith, length-swap_at s e xs)) (omega arith),
        turned_step s e xs i below h,
      )
  | inr ge ↦ ground (arith, turned_idle s e xs i (ground arith))
]

turned_over :
    (xs ys : List ℕ) (i : ℕ)
    → turned (length xs) (length (xs ++ ys) - 1) (xs ++ ys) i ≡ get_elem? (xs ++ rev ys) i
turned_over xs ys i =
    let n = length xs in
    let m = length ys in
    let total = length-append xs ys in
    let left = get_elem?-append xs ys i in
    let right = get_elem?-append xs (rev ys) i in
    elim (Bool-cases (ltb i n)) [
      | inl low ↦ ground (arith, left, right)
      | inr high ↦ elim (Bool-cases (ltb i (n + m))) [
        | inl inside ↦
            let there : n + (length (xs ++ ys) - 1) - i - n ≡ m - 1 - (i - n) = ground arith in
            let short : i - n < m = ground arith in
            ground (
              arith,
              right,
              ap (get_elem? ys) there,
              get_elem?-append xs ys (n + (length (xs ++ ys) - 1) - i),
              get_elem?-rev ys (i - n) short,
            )
        | inr outside ↦
            let none_left = get_elem?-none (xs ++ ys) i (ground arith) in
            let none_right =
              get_elem?-none (xs ++ rev ys) i
                (ground (arith, length-append xs (rev ys), length-rev ys)) in
            ground (arith, none_left, none_right)
      ]
    ]

-- The text from `length xs` on is turned around.
pub reverse_str-append :
    (xs ys : List ℕ) → 1 ≤ length ys → reverse_str (length xs) (xs ++ ys) ≡ xs ++ rev ys
unfolding reverse_str
reverse_str-append xs ys h = list_ext _ _ (λ i.
    swap_ends-turned (length (xs ++ ys)) (length xs) (length (xs ++ ys) - 1) (xs ++ ys) i
      (omega (arith, length-append xs ys)) (omega arith)
    ∙ turned_over xs ys i)
