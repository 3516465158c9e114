-- ===== src/Malloc/Cache.antt =====
-- src/malloc.cpp: requests to the system, and `jitc_flush_malloc_cache`. A call gives its result or
-- how it stopped, and the state that it leaves in both cases.
use enoki_jit.Prelude.{
  ℕ, ◌+◌, ◌-◌, ◌*◌, ◌%◌, ◌^◌, Bool, true, false, ◌||◌, ltb, ◌==◌, if◌then◌else◌, Option, none, some,
  List, [], ◌∷◌, length,
}
use enoki_jit.Prelude.Result.{Result, ok, err, raise, fail}
use enoki_jit.Types.{AllocType}
use enoki_jit.Malloc.Info.{alloc_info_decode, alloc_type_code}
use enoki_jit.Malloc.System.{System, map_failed}
use enoki_jit.Malloc.Tables.{FreeMap, free_push}
use enoki_jit.Malloc.State.{Setup, State}

-- `DRJIT_HUGEPAGE_SIZE`
unfoldable pub hugepage_size : ℕ
hugepage_size = 2 * 1024 * 1024

-- `a - b` and `a + b` on `size_t`.
unfoldable pub sub_size : ℕ → ℕ → ℕ
sub_size a b = (a + (2 ^ 64 - b % 2 ^ 64)) % 2 ^ 64

unfoldable pub add_size : ℕ → ℕ → ℕ
add_size a b = (a + b) % 2 ^ 64

-- The bytes of one entry of `alloc_free` that count for `type`, and `trim_size[type]` over all.
unfoldable pub entry_size : AllocType → ℕ × List ℕ → ℕ
entry_size type (info, ps) = elim (alloc_info_decode info).1 [
  | none ↦ 0
  | some other ↦
      if alloc_type_code other == alloc_type_code type
      then (alloc_info_decode info).0 * length ps
      else 0
]

unfoldable pub trim_size : AllocType → FreeMap → ℕ
unfolding entry_size
trim_size type [] = 0
trim_size type (entry ∷ m) = (entry_size type entry + trim_size type m) % 2 ^ 64

-- The host functions that wait in the stream run, the oldest first.
unfoldable pub run_pending : List (ℕ × ℕ) → FreeMap → FreeMap
unfolding free_push
run_pending [] m = m
run_pending ((info, p) ∷ rs) m = run_pending rs (free_push info p m)

module _ (S : System) where
  unfoldable pub aligned_malloc : ℕ → S.Os → Option ℕ × S.Os
  unfolding hugepage_size map_failed
  aligned_malloc size os =
      if ltb size hugepage_size
      then S.posix_memalign size os
      else (let (p, os1) = S.mmap true size os in
          let (q, os2) = S.mmap false size os1 in
          if p == map_failed then (some q, os2) else (some p, os1))

  unfoldable pub aligned_free : ℕ → ℕ → S.Os → S.Os
  unfolding hugepage_size
  aligned_free p size os = if ltb size hugepage_size then S.free p os else S.munmap p size os

  -- One request of `jitc_malloc`; `pool` is whether the stream has a memory pool.
  unfoldable pub request : AllocType → Bool → ℕ → S.Os → Option ℕ × S.Os
  unfolding aligned_malloc
  request AllocType.host pool size os = aligned_malloc size os
  request AllocType.host_async pool size os = aligned_malloc size os
  request AllocType.host_pinned pool size os = S.cu_mem_alloc_host size os
  request AllocType.device pool size os =
      if pool then S.cu_mem_alloc_async size os else S.cu_mem_alloc size os

  module _ (setup : Setup) where
    -- The release of one address by `jitc_flush_malloc_cache`.
    unfoldable pub give_back : AllocType → ℕ → ℕ → ℕ → S.Os → S.Os
    unfolding aligned_free
    give_back AllocType.host device size p os = aligned_free p size os
    give_back AllocType.host_async device size p os = aligned_free p size os
    give_back AllocType.host_pinned device size p os =
        if setup.has_cuda then S.cu_mem_free_host p os else os
    give_back AllocType.device device size p os =
        if setup.has_cuda
        then (if setup.device_pool device then S.cu_mem_free_async p os else S.cu_mem_free p os)
        else os

    unfoldable pub give_back_all : AllocType → ℕ → ℕ → List ℕ → S.Os → S.Os
    unfolding give_back
    give_back_all type device size [] os = os
    give_back_all type device size (p ∷ ps) os =
        give_back type device size p (give_back_all type device size ps os)

    unfoldable pub release_cache : FreeMap → S.Os → Result S.Os
    unfolding give_back_all
    release_cache [] os = ok os
    release_cache ((info, ps) ∷ m) os = elim (alloc_info_decode info).1 [
      | none ↦ err fail
      | some type ↦
          release_cache m
            (give_back_all type (alloc_info_decode info).2 (alloc_info_decode info).0 ps os)
    ]

    -- The part of `jitc_flush_malloc_cache` after the synchronization.
    unfoldable pub trim_cache : State S → Result (Unit {0}) × State S
    unfolding release_cache trim_size sub_size
    trim_cache s = elim (release_cache s.alloc_free s.os) [
      | err why ↦ (err why, record s { alloc_free = [] })
      | ok os ↦ (
        ok tt,
        record s {
          os = os;
          alloc_free = [];
          alloc_allocated = λ type. sub_size (s.alloc_allocated type) (trim_size type s.alloc_free);
        },
      )
    ]

    unfoldable pub synchronize : State S → State S
    unfolding run_pending
    synchronize s = record s { alloc_free = run_pending s.pending s.alloc_free; pending = [] }

    unfoldable pub jitc_flush_malloc_cache : Bool → State S → Result (Unit {0}) × State S
    unfolding trim_cache synchronize
    jitc_flush_malloc_cache warn s =
        if s.freezing
        then (err raise, s)
        else trim_cache (synchronize (record s { warned = s.warned || warn }))
