-- ===== src/Prelude/Texts.antt =====
-- Texts: lists of codes, and the library's laws of `++` under the names used here.
use Prim.Native.Nat.{ℕ, zero, suc, ◌-◌, ◌<◌}
use Prim.Native.Char.{code}
use Prim.Native.String.{String}
use mathlib.Core.Path.{◌≡◌, refl, ap}
use mathlib.Core.Logic.{inl, inr}
use mathlib.Core.List.{List, [], ◌∷◌, ◌++◌}
use mathlib.Core.Option.{some-injective}
use native.Mathlib.Omega.{arith}
use enoki_jit.Prelude.Tests.{ltb, ◌==◌, Bool-cases, if◌then◌else◌}
use enoki_jit.Prelude.Lists.{length, get_elem?, length-append, get_elem?-append_one}

-- Code points; every text here is ASCII.
abbrev pub codes : String → List ℕ
codes String.[] = []
codes (String.◌∷◌ c s) = code c ∷ codes s

module _ {ℓ} {A : Type ℓ} where
  abbrev pub rev : List A → List A
  rev [] = []
  rev (x ∷ xs) = rev xs ++ x ∷ []

  abbrev pub take : ℕ → List A → List A
  take zero xs = []
  take (suc n) [] = []
  take (suc n) (x ∷ xs) = x ∷ take n xs

  abbrev pub drop : ℕ → List A → List A
  drop zero xs = xs
  drop (suc n) [] = []
  drop (suc n) (x ∷ xs) = drop n xs

  abbrev pub repeat : ℕ → A → List A
  repeat zero x = []
  repeat (suc n) x = x ∷ repeat n x

  pub append_assoc : (xs ys zs : List A) → (xs ++ ys) ++ zs ≡ xs ++ (ys ++ zs)
  append_assoc [] ys zs = refl
  append_assoc (x ∷ xs) ys zs = ap (λ l. x ∷ l) (append_assoc xs ys zs)

  pub append_one : (xs : List A) (c : A) (ys : List A) → (xs ++ c ∷ []) ++ ys ≡ xs ++ c ∷ ys
  append_one [] c ys = refl
  append_one (x ∷ xs) c ys = ap (λ l. x ∷ l) (append_one xs c ys)

  pub append-nil : (xs : List A) → xs ++ [] ≡ xs
  append-nil [] = refl
  append-nil (x ∷ xs) = ap (λ l. x ∷ l) (append-nil xs)

  pub length-rev : (xs : List A) → length (rev xs) ≡ length xs
  length-rev [] = refl
  length-rev (x ∷ xs) = omega (arith, length-append (rev xs) (x ∷ []), length-rev xs)

  pub length-repeat : (n : ℕ) (x : A) → length (repeat n x) ≡ n
  length-repeat zero x = refl
  length-repeat (suc n) x = ap suc (length-repeat n x)

  pub take-append : (xs ys : List A) → take (length xs) (xs ++ ys) ≡ xs
  take-append [] ys = refl
  take-append (x ∷ xs) ys = ap (λ l. x ∷ l) (take-append xs ys)

  pub drop-append : (xs ys : List A) → drop (length xs) (xs ++ ys) ≡ ys
  drop-append [] ys = refl
  drop-append (x ∷ xs) ys = drop-append xs ys

  pub get_elem?-append :
      (xs ys : List A) (i : ℕ)
      → get_elem? (xs ++ ys) i
        ≡ (if ltb i (length xs) then get_elem? xs i else get_elem? ys (i - length xs))
  get_elem?-append [] ys i = let e : i - 0 ≡ i = omega arith in ground (arith, ap (get_elem? ys) e)
  get_elem?-append (x ∷ xs) ys zero = ground arith
  get_elem?-append (x ∷ xs) ys (suc i) = ground (arith, get_elem?-append xs ys i)

  pub get_elem?-rev :
      (xs : List A) (i : ℕ)
      → i < length xs
      → get_elem? (rev xs) i ≡ get_elem? xs (length xs - 1 - i)
  get_elem?-rev [] i h = absurd (omega arith)
  get_elem?-rev (x ∷ xs) i h = elim (Bool-cases (i == length xs)) [
    | inl e ↦
        let last : length (x ∷ xs) - 1 - i ≡ 0 = ground arith in
        rw last (ground (arith, get_elem?-append_one (rev xs) i x, length-rev xs))
    | inr e ↦
        let inner : length (x ∷ xs) - 1 - i ≡ suc (length xs - 1 - i) = ground arith in
        let low : i < length xs = ground arith in
        rw inner
          (ground (arith, get_elem?-append_one (rev xs) i x, length-rev xs, get_elem?-rev xs i low))
  ]

  -- Lists are equal when their elements are.
  pub list_ext : (xs ys : List A) → ((i : ℕ) → get_elem? xs i ≡ get_elem? ys i) → xs ≡ ys
  list_ext [] [] h = refl
  list_ext [] (y ∷ ys) h = absurd (cc (h 0))
  list_ext (x ∷ xs) [] h = absurd (cc (h 0))
  list_ext (x ∷ xs) (y ∷ ys) h =
      let same : x ≡ y = some-injective x y (h 0) in
      let rest : xs ≡ ys = list_ext xs ys (λ i. h (suc i)) in rw (same, rest)
