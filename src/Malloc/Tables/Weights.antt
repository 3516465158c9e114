-- ===== src/Malloc/Tables/Weights.antt =====
-- The tables of src/malloc.cpp as sums: a weight of each block, added over a table. With the bytes of
-- a block as the weight a sum is an account, with an address' indicator it counts the address.
use enoki_jit.Prelude.{
  ℕ, ◌+◌, ◌≤◌, ◌≡◌, none, some, List, [], ◌∷◌, ◌++◌, arith, Option-cases, inl, inr,
}
use enoki_jit.Malloc.Tables.{
  UsedMap, FreeMap, used_find, used_emplace, used_erase, used_assign, free_push, free_pop,
}

module _ (w : ℕ → ℕ → ℕ) where
  unfoldable pub weigh_list : ℕ → List ℕ → ℕ
  weigh_list info [] = 0
  weigh_list info (p ∷ ps) = w info p + weigh_list info ps

  unfoldable pub weigh_free : FreeMap → ℕ
  unfolding weigh_list
  weigh_free [] = 0
  weigh_free ((info, ps) ∷ m) = weigh_list info ps + weigh_free m

  -- The keys alone, at the address 0.
  unfoldable pub weigh_keys : FreeMap → ℕ
  weigh_keys [] = 0
  weigh_keys ((info, ps) ∷ m) = w info 0 + weigh_keys m

  -- Pairs of an address and an info.
  unfoldable pub weigh_used : UsedMap → ℕ
  weigh_used [] = 0
  weigh_used ((p, info) ∷ u) = w info p + weigh_used u

  -- Pairs of an info and an address.
  unfoldable pub weigh_pending : List (ℕ × ℕ) → ℕ
  weigh_pending [] = 0
  weigh_pending ((info, p) ∷ rs) = w info p + weigh_pending rs

  pub weigh_free-free_push :
      (info p : ℕ) (m : FreeMap) → weigh_free (free_push info p m) ≡ w info p + weigh_free m
  unfolding weigh_free weigh_list free_push
  weigh_free-free_push info p [] = omega arith
  weigh_free-free_push info p ((other, ps) ∷ m) = ground (arith, weigh_free-free_push info p m)

  pub weigh_free-free_pop :
      (info p : ℕ) (m m' : FreeMap)
      → free_pop info m ≡ some (p, m')
      → weigh_free m ≡ w info p + weigh_free m'
  unfolding weigh_free weigh_list free_pop
  weigh_free-free_pop info p [] m' h = absurd cc
  weigh_free-free_pop info p ((other, []) ∷ m) m' h = elim (Option-cases (free_pop info m)) [
    | inl e ↦ absurd (ground arith)
    | inr ((r, m1), e) ↦ ground (arith, weigh_free-free_pop info r m m1 e)
  ]
  weigh_free-free_pop info p ((other, q ∷ ps) ∷ m) m' h = elim (Option-cases (free_pop info m)) [
    | inl e ↦ ground arith
    | inr ((r, m1), e) ↦ ground (arith, weigh_free-free_pop info r m m1 e)
  ]

  pub weigh_used-emplace :
      (p info : ℕ) (u : UsedMap)
      → used_find p u ≡ none
      → weigh_used (used_emplace p info u) ≡ w info p + weigh_used u
  unfolding weigh_used used_emplace
  weigh_used-emplace p info u h = ground arith

  pub weigh_used-erase :
      (p info : ℕ) (u : UsedMap)
      → used_find p u ≡ some info
      → weigh_used u ≡ w info p + weigh_used (used_erase p u)
  unfolding weigh_used used_find used_erase
  weigh_used-erase p info [] h = absurd cc
  weigh_used-erase p info ((q, old) ∷ u) h = ground (arith, weigh_used-erase p info u)

  pub weigh_used-assign :
      (p info new : ℕ) (u : UsedMap)
      → used_find p u ≡ some info
      → weigh_used (used_assign p new u) + w info p ≡ weigh_used u + w new p
  unfolding weigh_used used_find used_assign
  weigh_used-assign p info new [] h = absurd cc
  weigh_used-assign p info new ((q, old) ∷ u) h = ground (arith, weigh_used-assign p info new u)

  pub weigh_pending-append :
      (info p : ℕ) (rs : List (ℕ × ℕ))
      → weigh_pending (rs ++ (info, p) ∷ []) ≡ w info p + weigh_pending rs
  unfolding weigh_pending
  weigh_pending-append info p [] = omega arith
  weigh_pending-append info p ((i, q) ∷ rs) = omega (arith, weigh_pending-append info p rs)

  pub weigh_keys-free_push :
      (info p : ℕ) (m : FreeMap) → weigh_keys (free_push info p m) ≤ w info 0 + weigh_keys m
  unfolding weigh_keys free_push
  weigh_keys-free_push info p [] = omega arith
  weigh_keys-free_push info p ((other, ps) ∷ m) = ground (arith, weigh_keys-free_push info p m)

  pub weigh_keys-free_pop :
      (info p : ℕ) (m m' : FreeMap) → free_pop info m ≡ some (p, m') → weigh_keys m' ≡ weigh_keys m
  unfolding weigh_keys free_pop
  weigh_keys-free_pop info p [] m' h = absurd cc
  weigh_keys-free_pop info p ((other, []) ∷ m) m' h = elim (Option-cases (free_pop info m)) [
    | inl e ↦ absurd (ground arith)
    | inr ((r, m1), e) ↦ ground (arith, weigh_keys-free_pop info r m m1 e)
  ]
  weigh_keys-free_pop info p ((other, q ∷ ps) ∷ m) m' h = elim (Option-cases (free_pop info m)) [
    | inl e ↦ ground arith
    | inr ((r, m1), e) ↦ ground (arith, weigh_keys-free_pop info r m m1 e)
  ]
