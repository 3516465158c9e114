-- ===== src/Malloc/Accounts/Returned.antt =====
-- `jitc_flush_malloc_cache` of src/malloc.cpp: which addresses the system has back afterwards.
use enoki_jit.Prelude.{
  ℕ, ◌+◌, ◌≤◌, ◌≡◌, ◌∙◌, sym, ap, Bool, true, false, if_both, ltb, some, List, [], ◌∷◌, arith,
  Option-cases, inl, inr, none, if◌then◌else◌,
}
use enoki_jit.Prelude.Result.{ok, ok-injective}
use enoki_jit.Types.{AllocType}
use enoki_jit.Malloc.Info.{alloc_info_decode}
use enoki_jit.Malloc.System.{System, Lawful, Takes}
use enoki_jit.Malloc.Tables.{FreeMap}
use enoki_jit.Malloc.Tables.Weights.{weigh_list, weigh_free, weigh_keys}
use enoki_jit.Malloc.State.{Setup}
use enoki_jit.Malloc.Cache.{hugepage_size, aligned_free, give_back, give_back_all, release_cache}
use enoki_jit.Malloc.Accounts.{at, unread, number, Keeps}
use enoki_jit.Malloc.Accounts.Release.{release_cache-cons}

-- The types whose memory a flush gives back; those of the driver only where CUDA is in use.
unfoldable pub is_returned : Setup → AllocType → Bool
is_returned setup AllocType.host = true
is_returned setup AllocType.host_async = true
is_returned setup AllocType.host_pinned = setup.has_cuda
is_returned setup AllocType.device = setup.has_cuda

-- The weight of a block that is at the address `q` and of such a type.
unfoldable pub returned_at : Setup → ℕ → ℕ → ℕ → ℕ
unfolding is_returned at
returned_at setup q info p = elim (alloc_info_decode info).1 [
  | none ↦ 0
  | some type ↦ if is_returned setup type then at q info p else 0
]

-- What is still in use covers what is still to be given back.
at_most :
    (given : Bool) (list x y rest : ℕ)
    → x + (if given then list else 0) ≡ y
    → list + rest ≤ y
    → rest ≤ x
at_most true list x y rest e h = omega (arith, e, h)
at_most false list x y rest e h = omega (arith, e, h)

both_given :
    (given : Bool) (a b x y z : ℕ)
    → x + (if given then a else 0) ≡ y
    → y + (if given then b else 0) ≡ z
    → x + (if given then a + b else 0) ≡ z
both_given true a b x y z e h = omega (arith, e, h)
both_given false a b x y z e h = omega (arith, e, h)

module _ (S : System) (L : Lawful S) (setup : Setup) where
  -- From `a` to `b`, the system gets back the address `p` if `given`, and no other.
  abbrev Returns : Bool → ℕ → S.Os → S.Os → Type 0
  Returns given p a b =
      (q : ℕ) → number (L.in_use b q) + (if given then at q 0 p else 0) ≡ number (L.in_use a q)

  Takes-Returns :
      (p : ℕ) (a b : S.Os) → Takes L.in_use a p b → Keeps S L (λ q. at q 0 p) a → Returns true p a b
  unfolding at
  Takes-Returns p a b t k q = ground (arith, k q, t q)

  nothing-Returns : (p : ℕ) (a : S.Os) → Returns false p a a
  nothing-Returns p a q = omega arith

  either-Returns :
      (given : Bool) (p : ℕ) (a b : S.Os)
      → Returns true p a b
      → Returns given p a (if given then b else a)
  either-Returns true p a b r = r
  either-Returns false p a b r = nothing-Returns p a

  aligned_free-Returns :
      (p size : ℕ) (a : S.Os)
      → Keeps S L (λ q. at q 0 p) a
      → Returns true p a (aligned_free S p size a)
  unfolding aligned_free
  aligned_free-Returns p size a k =
      if_both (Returns true p a) (ltb size hugepage_size) _ _
        (Takes-Returns p a _ (L.free_takes p a) k) (Takes-Returns p a _ (L.munmap_takes p size a) k)

  give_back-Returns :
      (t : AllocType) (device size p : ℕ) (a : S.Os)
      → Keeps S L (λ q. at q 0 p) a
      → Returns (is_returned setup t) p a (give_back S setup t device size p a)
  unfolding give_back is_returned
  give_back-Returns AllocType.host device size p a k = aligned_free-Returns p size a k
  give_back-Returns AllocType.host_async device size p a k = aligned_free-Returns p size a k
  give_back-Returns AllocType.host_pinned device size p a k =
      either-Returns setup.has_cuda p a _ (Takes-Returns p a _ (L.cu_mem_free_host_takes p a) k)
  give_back-Returns AllocType.device device size p a k = either-Returns setup.has_cuda p a _ (
      if_both (Returns true p a) (setup.device_pool device) _ _
        (Takes-Returns p a _ (L.cu_mem_free_async_takes p a) k)
        (Takes-Returns p a _ (L.cu_mem_free_takes p a) k))

  give_back_all-Returns :
      (t : AllocType) (device size info : ℕ) (ps : List ℕ) (os : S.Os)
      → Keeps S L (λ q. weigh_list (at q) info ps) os
      → (q : ℕ)
      → number (L.in_use (give_back_all S setup t device size ps os) q)
          + (if is_returned setup t then weigh_list (at q) info ps else 0)
        ≡ number (L.in_use os q)
  unfolding give_back_all weigh_list at
  give_back_all-Returns t device size info [] os k q = ground arith
  give_back_all-Returns t device size info (p ∷ ps) os k q =
      let rest = give_back_all-Returns t device size info ps os (λ r. omega (arith, k r)) in
      let last = give_back-Returns t device size p (give_back_all S setup t device size ps os) (λ r.
        at_most (is_returned setup t) (weigh_list (at r) info ps) _ _ _ (rest r)
          (omega (arith, k r))) in
      both_given (is_returned setup t) (at q info p) (weigh_list (at q) info ps) _ _ _ (last q)
        (rest q)

  weigh_list-returned :
      (info : ℕ) (t : AllocType) (ps : List ℕ) (q : ℕ)
      → (alloc_info_decode info).1 ≡ some t
      → weigh_list (returned_at setup q) info ps
        ≡ (if is_returned setup t then weigh_list (at q) info ps else 0)
  unfolding weigh_list returned_at at
  weigh_list-returned info t [] q e = ground arith
  weigh_list-returned info t (p ∷ ps) q e = ground (arith, weigh_list-returned info t ps q e)

  -- After the release of a cache, the system has back what it is given, and nothing else.
  pub release_cache-Returns :
      (m : FreeMap) (os os' : S.Os)
      → weigh_keys unread m ≡ 0
      → Keeps S L (λ q. weigh_free (at q) m) os
      → release_cache S setup m os ≡ ok os'
      → (q : ℕ)
      → number (L.in_use os' q) + weigh_free (returned_at setup q) m ≡ number (L.in_use os q)
  unfolding release_cache weigh_free weigh_keys unread
  release_cache-Returns [] os os' z k h q =
      let same : os ≡ os' = ok-injective os os' h in
      omega (arith, ap (λ o. number (L.in_use o q)) same)
  release_cache-Returns ((info, ps) ∷ m) os os' z k h q =
      elim (Option-cases (alloc_info_decode info).1) [
        | inl e ↦ absurd (ground arith)
        | inr (t, e) ↦
            let os1 =
              give_back_all S setup t (alloc_info_decode info).2 (alloc_info_decode info).0 ps os in
            let one : (r : ℕ)
                → number (L.in_use os1 r)
                    + (if is_returned setup t then weigh_list (at r) info ps else 0)
                  ≡ number (L.in_use os r) =
              give_back_all-Returns t _ _ info ps os (λ r. omega (arith, k r)) in
            let rest =
              release_cache-Returns m os1 os' (omega (arith, z))
                (λ r. at_most (is_returned setup t) (weigh_list (at r) info ps) _ _ _ (one r) (k r))
                (sym (release_cache-cons S L setup info t ps m os e) ∙ h) q in
            omega (arith, one q, rest, weigh_list-returned info t ps q e)
      ]
