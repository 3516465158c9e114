-- ===== src/Malloc/Accounts/Release.antt =====
-- The release of the cache in src/malloc.cpp: the sums of its sizes, and the addresses that it leaves
-- in use.
use enoki_jit.Prelude.{
  ℕ, suc, ◌+◌, ◌*◌, ◌%◌, ◌^◌, ◌≤◌, ◌≡◌, refl, ◌∙◌, if_both, ltb, some, List, [], ◌∷◌, length, arith,
  Option-cases, inl, inr,
}
use enoki_jit.Prelude.Result.{ok}
use enoki_jit.Types.{AllocType}
use enoki_jit.Malloc.Info.{alloc_info_decode}
use enoki_jit.Malloc.System.{System, Lawful, Takes}
use enoki_jit.Malloc.Tables.{FreeMap, free_push}
use enoki_jit.Malloc.Tables.Weights.{
  weigh_list, weigh_free, weigh_keys, weigh_keys-free_push, weigh_pending, weigh_free-free_push,
}
use enoki_jit.Malloc.State.{Setup}
use enoki_jit.Malloc.Cache.{
  hugepage_size, entry_size, trim_size, aligned_free, give_back, give_back_all, release_cache,
  run_pending,
}
use enoki_jit.Malloc.Accounts.{bytes, at, unread, Keeps}

times-suc : (a b : ℕ) → a * suc b ≡ a + a * b
times-suc a b = grind arith

entry_size-weigh :
    (t : AllocType) (info : ℕ) (ps : List ℕ)
    → entry_size t (info, ps) ≡ weigh_list (bytes t) info ps
unfolding entry_size weigh_list bytes
entry_size-weigh t info [] = elim (Option-cases (alloc_info_decode info).1) [
  | inl e ↦ ground arith
  | inr (other, e) ↦ ground arith
]
entry_size-weigh t info (p ∷ ps) = elim (Option-cases (alloc_info_decode info).1) [
  | inl e ↦ ground (arith, entry_size-weigh t info ps)
  | inr (other, e) ↦
      ground (arith, entry_size-weigh t info ps, times-suc (alloc_info_decode info).0 (length ps))
]

pub trim_size-weigh :
    (t : AllocType) (m : FreeMap) → trim_size t m ≡ weigh_free (bytes t) m % 2 ^ 64
unfolding trim_size weigh_free
trim_size-weigh t [] = refl
trim_size-weigh t ((info, ps) ∷ m) = omega (arith, entry_size-weigh t info ps, trim_size-weigh t m)

pub weigh-run_pending :
    (w : ℕ → ℕ → ℕ) (rs : List (ℕ × ℕ)) (m : FreeMap)
    → weigh_free w (run_pending rs m) ≡ weigh_pending w rs + weigh_free w m
unfolding run_pending weigh_pending
weigh-run_pending w [] m = omega arith
weigh-run_pending w ((info, p) ∷ rs) m =
    omega (arith, weigh-run_pending w rs (free_push info p m), weigh_free-free_push w info p m)

pub keys-run_pending :
    (rs : List (ℕ × ℕ)) (m : FreeMap)
    → weigh_keys unread (run_pending rs m) ≤ weigh_pending unread rs + weigh_keys unread m
unfolding run_pending weigh_pending unread
keys-run_pending [] m = omega arith
keys-run_pending ((info, p) ∷ rs) m =
    omega (arith, keys-run_pending rs (free_push info p m), weigh_keys-free_push unread info p m)

module _ (S : System) (L : Lawful S) (setup : Setup) where
  Keeps-taken :
      (c : ℕ → ℕ) (p : ℕ) (a b : S.Os)
      → Takes L.in_use a p b
      → Keeps S L (λ q. c q + at q 0 p) a
      → Keeps S L c b
  unfolding at
  Keeps-taken c p a b t k q = ground (arith, k q, t q)

  Keeps-same : (c : ℕ → ℕ) (p : ℕ) (a : S.Os) → Keeps S L (λ q. c q + at q 0 p) a → Keeps S L c a
  unfolding at
  Keeps-same c p a k q = omega (arith, k q)

  aligned_free-Keeps :
      (c : ℕ → ℕ) (p size : ℕ) (os : S.Os)
      → Keeps S L (λ q. c q + at q 0 p) os
      → Keeps S L c (aligned_free S p size os)
  unfolding aligned_free
  aligned_free-Keeps c p size os k =
      if_both (Keeps S L c) (ltb size hugepage_size) _ _
        (Keeps-taken c p os _ (L.free_takes p os) k)
        (Keeps-taken c p os _ (L.munmap_takes p size os) k)

  give_back-Keeps :
      (c : ℕ → ℕ) (t : AllocType) (device size p : ℕ) (os : S.Os)
      → Keeps S L (λ q. c q + at q 0 p) os
      → Keeps S L c (give_back S setup t device size p os)
  unfolding give_back
  give_back-Keeps c AllocType.host device size p os k = aligned_free-Keeps c p size os k
  give_back-Keeps c AllocType.host_async device size p os k = aligned_free-Keeps c p size os k
  give_back-Keeps c AllocType.host_pinned device size p os k =
      if_both (Keeps S L c) setup.has_cuda _ _
        (Keeps-taken c p os _ (L.cu_mem_free_host_takes p os) k) (Keeps-same c p os k)
  give_back-Keeps c AllocType.device device size p os k =
      if_both (Keeps S L c) setup.has_cuda _ _
        (if_both (Keeps S L c) (setup.device_pool device) _ _
          (Keeps-taken c p os _ (L.cu_mem_free_async_takes p os) k)
          (Keeps-taken c p os _ (L.cu_mem_free_takes p os) k))
        (Keeps-same c p os k)

  give_back_all-Keeps :
      (t : AllocType) (device size info : ℕ) (ps : List ℕ) (c : ℕ → ℕ) (os : S.Os)
      → Keeps S L (λ q. c q + weigh_list (at q) info ps) os
      → Keeps S L c (give_back_all S setup t device size ps os)
  unfolding give_back_all weigh_list at
  give_back_all-Keeps t device size info [] c os k = λ q. omega (arith, k q)
  give_back_all-Keeps t device size info (p ∷ ps) c os k =
      give_back-Keeps c t device size p _ (
        give_back_all-Keeps t device size info ps (λ q. c q + at q 0 p) os
          (λ q. omega (arith, k q)))

  pub release_cache-cons :
      (info : ℕ) (t : AllocType) (ps : List ℕ) (m : FreeMap) (os : S.Os)
      → (alloc_info_decode info).1 ≡ some t
      → release_cache S setup ((info, ps) ∷ m) os
        ≡ release_cache S setup m
            (give_back_all S setup t (alloc_info_decode info).2 (alloc_info_decode info).0 ps os)
  unfolding release_cache
  release_cache-cons info t ps m os e = ground arith

  pub release_cache-Keeps :
      (m : FreeMap) (c : ℕ → ℕ) (os : S.Os)
      → weigh_keys unread m ≡ 0
      → Keeps S L (λ q. c q + weigh_free (at q) m) os
      → (os' : S.Os) × (release_cache S setup m os ≡ ok os') × Keeps S L c os'
  unfolding release_cache weigh_free weigh_keys unread
  release_cache-Keeps [] c os z k = (os, refl, λ q. omega (arith, k q))
  release_cache-Keeps ((info, ps) ∷ m) c os z k = elim (Option-cases (alloc_info_decode info).1) [
    | inl e ↦ absurd (ground arith)
    | inr (t, e) ↦
        let (os', r, k') = release_cache-Keeps m c _ (omega arith) (
          give_back_all-Keeps t _ _ info ps (λ q. c q + weigh_free (at q) m) os
            (λ q. omega (arith, k q))) in
        (os', release_cache-cons info t ps m os e ∙ r, k')
  ]
