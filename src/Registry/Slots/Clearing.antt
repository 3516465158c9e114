-- ===== src/Registry/Slots/Clearing.antt =====
-- src/registry.cpp: what `jitc_registry_clear` leaves behind in a domain.
use enoki_jit.Prelude.{
  ℕ, zero, suc, ◌+◌, max, true, false, ◌≡◌, refl, sym, ap, ◌∙◌, ◌≢◌, List, [], ◌∷◌, ◌++◌, length,
  set, arith, get_elem?-set, get_elem?-append_one, get_elem?-some,
}
use enoki_jit.Registry.Slots.{
  Ptr, Domain, ptr_at, append_slot, alloc_id, shrink_bound, free_id, deactivate, clear_domain,
}
use enoki_jit.Registry.Slots.Laws.{IsValid}

length-deactivate : (xs : List Ptr) → length (deactivate xs) ≡ length xs
unfolding deactivate
length-deactivate [] = refl
length-deactivate (x ∷ xs) = ap suc (length-deactivate xs)

ptr_at-deactivate : (xs : List Ptr) (i : ℕ) → ptr_at (deactivate xs) i ≡ ptr_at xs i
unfolding deactivate
ptr_at-deactivate [] i = refl
ptr_at-deactivate (x ∷ xs) zero = refl
ptr_at-deactivate (x ∷ xs) (suc i) = ptr_at-deactivate xs i

shrink_bound_two :
    (xs : List Ptr) (n : ℕ)
    → ptr_at xs (suc n) ≡ 0
    → ptr_at xs n ≢ 0
    → shrink_bound xs (max 0 (suc n + 1)) ≡ suc n
unfolding shrink_bound
shrink_bound_two xs n z h =
    let e : max 0 (suc n + 1) ≡ suc (suc n) = omega arith in ap (shrink_bound xs) e ∙ ground arith

-- In a valid domain that has slots and none of them free, after a clear, a registration takes a new slot
-- behind them, and its removal leaves the bound of the domain on the last of the old slots, which still
-- has its pointer from before the clear, not null.
pub clear_domain_keeps_last :
    (d : Domain)
    → IsValid d
    → (p n : ℕ) → p ≢ 0
    → d.free_pq ≡ []
    → length d.fwd_map ≡ suc n
    → let (i, d') = alloc_id (clear_domain d) p in
      (i ≡ suc n)
      × ((free_id d' i).id_bound ≡ suc n)
      × (ptr_at (free_id d' i).fwd_map n ≡ ptr_at d.fwd_map n)
      × (ptr_at d.fwd_map n ≢ 0)
unfolding clear_domain alloc_id free_id append_slot shrink_bound
clear_domain_keeps_last d v p n live e len =
    let entry : Ptr = record { ptr = p; active = true } in
    let gap : Ptr = record { ptr = 0; active = false } in
    let xs = deactivate d.fwd_map in
    let here : ptr_at d.fwd_map n ≢ 0 = ground (arith, v.free n, get_elem?-some d.fwd_map n) in
    let size : length xs ≡ suc n = length-deactivate d.fwd_map ∙ len in
    let kept : ptr_at (set (xs ++ entry ∷ []) (suc n) gap) n ≡ ptr_at d.fwd_map n = ground (
      arith,
      get_elem?-set (xs ++ entry ∷ []) (suc n) n gap,
      get_elem?-append_one xs n entry,
      ptr_at-deactivate d.fwd_map n,
    ) in
    let last : ptr_at (set (xs ++ entry ∷ []) (suc n) gap) (suc n) ≡ 0 =
      ground (arith, get_elem?-set (xs ++ entry ∷ []) (suc n) (suc n) gap) in
    let stays : ptr_at (set (xs ++ entry ∷ []) (suc n) gap) n ≢ 0 = λ z. here (sym kept ∙ z) in
    rw (e, alloc_id, size)
      (
        refl,
        ground (arith, shrink_bound_two (set (xs ++ entry ∷ []) (suc n) gap) n last stays),
        kept,
        here,
      )
