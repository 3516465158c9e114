-- ===== src/StringBuffer/Fmt.antt =====
-- src/strbuf.cpp: the loop of `fmt` and `vfmt` ends in its second round.
use enoki_jit.Prelude.{
  ℕ, suc, ◌+◌, ◌<◌, ◌≡◌, refl, ◌∙◌, ap, true, false, some, List, ◌++◌, length, inl, inr, Bool-cases,
  arith,
}
use enoki_jit.Prelude.Result.{ok}
use enoki_jit.StringBuffer.{StringBuffer, expand, lacks_room, fmt}
use enoki_jit.StringBuffer.Room.{Appended, Roomy, expand-Roomy, Roomy-Appended}

-- A round in which the text fits is the last one.
fmt-fits :
    (fuel : ℕ) (str : List ℕ) (b : StringBuffer)
    → length b.text + length str < b.capacity
    → fmt (suc fuel) (some str) b ≡ ok (length str, record b { text = b.text ++ str })
unfolding fmt lacks_room
fmt-fits fuel str b h = ground arith

module _ (str : List ℕ) (b : StringBuffer) where
  fitting : lacks_room (length str) b ≡ false → length b.text + length str < b.capacity
  unfolding lacks_room
  fitting e = ground arith

  fits_already : length b.text + length str < b.capacity → Roomy (length str) b b
  fits_already h = record {
    text = refl;
    larger = omega arith;
    room = h;
    doublings = 0;
    doubles = ground arith;
  }

  again :
      (fuel : ℕ)
      → lacks_room (length str) b ≡ true
      → fmt (suc (suc fuel)) (some str) b ≡ fmt (suc fuel) (some str) (expand (length str) b)
  unfolding fmt
  again fuel e = ground (arith, e)

-- Two rounds of `fmt` are enough for every buffer: the text grows by exactly what `vsnprintf` prints,
-- the number of those bytes is returned, the capacity grows by a power of two, and there is room for
-- the zero.
pub fmt-Appended :
    (fuel : ℕ) (str : List ℕ) (b : StringBuffer)
    → (b' : StringBuffer) × (fmt (suc (suc fuel)) (some str) b ≡ ok (length str, b'))
      × Appended str b b'
unfolding expand
fmt-Appended fuel str b = elim (Bool-cases (lacks_room (length str) b)) [
  | inl e ↦
      let r = expand-Roomy (length str) b in
      (
        record (expand (length str) b) { text = b.text ++ str },
        again str b fuel e
            ∙ fmt-fits fuel str (expand (length str) b)
                (omega (arith, r.room, ap (λ t. length t) r.text)),
        Roomy-Appended str b (expand (length str) b) r,
      )
  | inr e ↦ (
    _,
    fmt-fits (suc fuel) str b (fitting str b e),
    Roomy-Appended str b b (fits_already str b (fitting str b e)),
  )
]
