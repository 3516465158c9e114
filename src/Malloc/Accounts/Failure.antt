-- ===== src/Malloc/Accounts/Failure.antt =====
-- src/malloc.cpp: what a failed request leaves behind.
use enoki_jit.Prelude.{
  ℕ, ◌+◌, ◌%◌, ◌^◌, ◌≤◌, ◌<◌, ◌≡◌, ◌≢◌, refl, ◌∙◌, ap, Bool, true, false, ==_self, ==_ne, ltb,
  if_true, if◌then◌else◌, ◌==◌, max, subst, none, some, arith,
}
use enoki_jit.Prelude.Result.{ok, err, raise}
use enoki_jit.Types.{AllocType}
use enoki_jit.Malloc.Info.{alloc_type_code, is_host, block_size, alloc_info_encode}
use enoki_jit.Malloc.System.{System, Lawful, map_failed}
use enoki_jit.Malloc.Tables.{free_pop}
use enoki_jit.Malloc.State.{Setup, State}
use enoki_jit.Malloc.Cache.{add_size, hugepage_size, aligned_malloc, request}
use enoki_jit.Malloc.Alloc.{
  target, count_new, count_used, attempt_twice, after_first, conclude, allocate_new, choose,
  allocate, jitc_malloc,
}
use enoki_jit.Malloc.Accounts.{IsValid}
use enoki_jit.Malloc.Accounts.Requests.{Attempted, attempt_twice-Attempted}

-- The size is charged to what is allocated, as far as the watermark; nothing else changes.
abbrev pub charged : {S : System} → AllocType → ℕ → State S → State S
charged type size s = record s {
  alloc_allocated = λ t.
      if alloc_type_code t == alloc_type_code type
      then (s.alloc_allocated type + size) % 2 ^ 64
      else s.alloc_allocated t;
  alloc_watermark = λ t.
      if alloc_type_code t == alloc_type_code type
      then max ((s.alloc_allocated type + size) % 2 ^ 64) (s.alloc_watermark type)
      else s.alloc_watermark t;
}

module _ (S : System) (L : Lawful S) (setup : Setup) where
  charges :
      (type : AllocType) (size : ℕ) (s : State S) → count_new S type size s ≡ charged type size s
  unfolding count_new add_size
  charges type size s = refl

  read_none : (s s1 : State S) → Attempted S L s (ok none, s1) → IsValid S L s1
  unfolding Attempted
  read_none s s1 a = a

  count_new-spoils :
      (type : AllocType) (size : ℕ) (s : State S)
      → IsValid S L s
      → 1 ≤ size
      → size < 2 ^ 64
      → ¬ IsValid S L (count_new S type size s)
  unfolding count_new add_size
  count_new-spoils type size s v a b w =
      let charged : (count_new S type size s).alloc_allocated type
          ≡ (s.alloc_allocated type + size) % 2 ^ 64 =
        if_true _ _ (==_self (alloc_type_code type)) in
      omega (arith, charged, v.allocated type, w.allocated type)

  -- Where both attempts of a request of 1 to 2 ^ 64 - 1 bytes fail, in a valid state, the loop of
  -- jitc_malloc raises; the state is that after the attempts but with the size added to what counts as
  -- allocated for the type (and the watermark raised), so that it is no longer valid.
  pub allocate_new_charges_failure :
      (type : AllocType) (pool : Bool) (size info : ℕ) (s s1 : State S)
      → IsValid S L s
      → attempt_twice S setup type pool size s ≡ (ok none, s1)
      → 1 ≤ size
      → size < 2 ^ 64
      → (s' : State S) × (allocate_new S setup type pool size info s ≡ (err raise, s'))
        × (s' ≡ charged type size s1)
        × (¬ IsValid S L s')
  unfolding allocate_new conclude
  allocate_new_charges_failure type pool size info s s1 v e a b = (
    count_new S type size s1,
    ap (conclude S type size info) e,
    charges type size s1,
    count_new-spoils type size s1
        (read_none s s1
          (subst (Attempted S L s) e (attempt_twice-Attempted S L setup type pool size s v)))
        a b,
  )

  unmapped :
      (size : ℕ) (os : S.Os)
      → hugepage_size ≤ size
      → (S.mmap true size os).0 ≡ map_failed
      → (S.mmap false size (S.mmap true size os).1).0 ≡ map_failed
      → aligned_malloc S size os ≡ (some map_failed, (S.mmap false size (S.mmap true size os).1).1)
  unfolding aligned_malloc
  unmapped size os h d e =
      let large : ltb size hugepage_size ≡ false = ground arith in
      ground (arith, large, ==_self map_failed)

  request_host :
      (type : AllocType) (pool : Bool) (size : ℕ) (os : S.Os)
      → is_host type ≡ true
      → request S type pool size os ≡ aligned_malloc S size os
  unfolding request is_host
  request_host AllocType.host pool size os h = refl
  request_host AllocType.host_async pool size os h = refl
  request_host AllocType.host_pinned pool size os h = absurd cc
  request_host AllocType.device pool size os h = absurd cc

  answered :
      (type : AllocType) (pool : Bool) (size info p : ℕ) (s : State S) (os : S.Os)
      → request S type pool size s.os ≡ (some p, os)
      → allocate_new S setup type pool size info s
        ≡ (ok p, count_used S type size info p (count_new S type size (record s { os = os })))
  unfolding allocate_new conclude attempt_twice after_first
  answered type pool size info p s os e =
      ap (λ r. conclude S type size info (after_first S setup type pool size s r)) e

  uncached :
      (type : AllocType) (n : ℕ) (s : State S)
      → is_host type ≡ true
      → n ≢ 0
      → free_pop (alloc_info_encode (block_size setup.vector_width type n) type 0) s.alloc_free
        ≡ none
      → jitc_malloc S setup type n s
        ≡ allocate_new S setup type false
            (block_size setup.vector_width type n)
            (alloc_info_encode (block_size setup.vector_width type n) type 0)
            s
  unfolding jitc_malloc target allocate choose
  uncached type n s h a c = ground (arith, ==_ne n 0 a)

  -- Where the system cannot map the memory for a large host block, jitc_malloc returns the value
  -- MAP_FAILED as the address of the block.
  pub jitc_malloc_returns_map_failed :
      (type : AllocType) (n : ℕ) (s : State S)
      → is_host type ≡ true
      → n ≢ 0
      → hugepage_size ≤ block_size setup.vector_width type n
      → free_pop (alloc_info_encode (block_size setup.vector_width type n) type 0) s.alloc_free
        ≡ none
      → (S.mmap true (block_size setup.vector_width type n) s.os).0 ≡ map_failed
      → (S.mmap false
          (block_size setup.vector_width type n)
          (S.mmap true (block_size setup.vector_width type n) s.os).1).0
        ≡ map_failed
      → (s' : State S) × (jitc_malloc S setup type n s ≡ (ok map_failed, s'))
  jitc_malloc_returns_map_failed type n s h a b c d e = (
    _,
    uncached type n s h a c
        ∙ answered type false _ _ map_failed s _
            (request_host type false _ s.os h ∙ unmapped _ s.os b d e),
  )
