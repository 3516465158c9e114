-- ===== src/Malloc/Alloc.antt =====
-- src/malloc.cpp: `jitc_malloc`, `jitc_free`, `jitc_malloc_clear_statistics` and the queries.
use enoki_jit.Prelude.{
  ℕ, max, Bool, true, false, ◌==◌, if◌then◌else◌, Option, none, some, [], ◌∷◌, ◌++◌,
}
use enoki_jit.Prelude.Result.{Result, ok, err, raise, fail}
use enoki_jit.Types.{AllocType}
use enoki_jit.Malloc.Info.{is_host, block_size, alloc_info_encode, alloc_info_decode}
use enoki_jit.Malloc.System.{System}
use enoki_jit.Malloc.Tables.{
  FreeMap, write_counter, used_find, used_emplace, used_erase, free_push, free_pop,
}
use enoki_jit.Malloc.State.{CudaThread, Setup, State}
use enoki_jit.Malloc.Cache.{request, jitc_flush_malloc_cache, add_size, sub_size}

-- The lookup by `find` at the start of the functions below, with the entry decoded.
pub data Entry : Type 0 where
  unknown : Entry
  broken : Entry
  known : ℕ → AllocType → ℕ → Entry

module _ (S : System) where
  -- The accounts of a new block, which are written whether or not there is one.
  unfoldable pub count_new : AllocType → ℕ → State S → State S
  unfolding add_size
  count_new type size s =
      let allocated = add_size (s.alloc_allocated type) size in
      record s {
        alloc_allocated = write_counter s.alloc_allocated type allocated;
        alloc_watermark =
            write_counter s.alloc_watermark type (max allocated (s.alloc_watermark type));
      }

  unfoldable pub count_used : AllocType → ℕ → ℕ → ℕ → State S → State S
  unfolding add_size used_emplace
  count_used type size info p s = record s {
    alloc_used = used_emplace p info s.alloc_used;
    alloc_usage = write_counter s.alloc_usage type (add_size (s.alloc_usage type) size);
  }

  -- What follows the loop of attempts: none is where both fail.
  unfoldable pub conclude : AllocType → ℕ → ℕ → Result (Option ℕ) × State S → Result ℕ × State S
  conclude type size info (err why, s) = (err why, s)
  conclude type size info (ok none, s) = (err raise, count_new type size s)
  conclude type size info (ok (some p), s) =
      (ok p, count_used type size info p (count_new type size s))

module _ (S : System) (setup : Setup) where
  -- `thread_state(JitBackend::CUDA)`
  unfoldable pub thread_state_of_cuda : State S → Result CudaThread × State S
  thread_state_of_cuda s = elim s.thread_state_cuda [
    | some ts ↦ (ok ts, s)
    | none ↦ elim setup.init_thread_state [
      | err why ↦ (err why, s)
      | ok ts ↦ (ok ts, record s { thread_state_cuda = some ts })
    ]
  ]

  -- The device and the memory pool that `jitc_malloc` uses.
  unfoldable pub target : AllocType → State S → Result CudaThread × State S
  unfolding is_host thread_state_of_cuda
  target type s =
      if is_host type
      then (ok (record { device = 0; memory_pool = false }), s)
      else thread_state_of_cuda s

  -- The loop of two attempts: the second one follows a flush of the cache.
  unfoldable pub second_attempt :
      AllocType → Bool → ℕ → Result (Unit {0}) × State S → Result (Option ℕ) × State S
  second_attempt type pool size (err why, s) = (err why, s)
  second_attempt type pool size (ok done, s) =
      let (p, os) = request S type pool size s.os in (ok p, record s { os = os })

  unfoldable pub after_first :
      AllocType → Bool → ℕ → State S → Option ℕ × S.Os → Result (Option ℕ) × State S
  unfolding second_attempt
  after_first type pool size s (some p, os) = (ok (some p), record s { os = os })
  after_first type pool size s (none, os) =
      second_attempt type pool size (jitc_flush_malloc_cache S setup true (record s { os = os }))

  unfoldable pub attempt_twice : AllocType → Bool → ℕ → State S → Result (Option ℕ) × State S
  unfolding after_first
  attempt_twice type pool size s = after_first type pool size s (request S type pool size s.os)

  unfoldable pub allocate_new : AllocType → Bool → ℕ → ℕ → State S → Result ℕ × State S
  unfolding conclude
  allocate_new type pool size info s = conclude S type size info (attempt_twice type pool size s)

  -- With what the cache has for the info, if anything.
  unfoldable pub choose :
      AllocType → Bool → ℕ → ℕ → State S → Option (ℕ × FreeMap) → Result ℕ × State S
  choose type pool size info s none = allocate_new type pool size info s
  choose type pool size info s (some (p, m)) =
      if p == 0
      then allocate_new type pool size info (record s { alloc_free = m })
      else (ok p, count_used S type size info p (record s { alloc_free = m }))

  unfoldable pub allocate : AllocType → ℕ → Result CudaThread × State S → Result ℕ × State S
  unfolding choose
  allocate type size (err why, s) = (err why, s)
  allocate type size (ok ts, s) =
      let info = alloc_info_encode size type ts.device in
      choose type ts.memory_pool size info s (free_pop info s.alloc_free)

  unfoldable pub jitc_malloc : AllocType → ℕ → State S → Result ℕ × State S
  unfolding allocate
  jitc_malloc type size s =
      if size == 0
      then (ok 0, s)
      else allocate type (block_size setup.vector_width type size) (target type s)

module _ (S : System) where
  unfoldable pub lookup : ℕ → State S → Entry
  unfolding used_find
  lookup p s = elim (used_find p s.alloc_used) [
    | none ↦ unknown
    | some info ↦ elim (alloc_info_decode info).1 [
      | none ↦ broken
      | some type ↦ known (alloc_info_decode info).0 type (alloc_info_decode info).2
    ]
  ]

  -- Where `jitc_free` puts a block: to the cache, or for host-pinned memory into the stream, unless
  -- there is no CUDA thread any more.
  unfoldable pub retire : AllocType → ℕ → ℕ → State S → State S
  unfolding free_push
  retire AllocType.host_pinned info p s = elim s.thread_state_cuda [
    | none ↦ s
    | some ts ↦ record s { pending = s.pending ++ (info, p) ∷ [] }
  ]
  retire _ info p s = record s { alloc_free = free_push info p s.alloc_free }

  unfoldable pub jitc_free : ℕ → State S → Result (Unit {0}) × State S
  unfolding retire used_erase sub_size
  jitc_free p s = if p == 0 then (ok tt, s) else elim (used_find p s.alloc_used) [
    | none ↦ (err raise, s)
    | some info ↦ elim (alloc_info_decode info).1 [
      | none ↦ (err fail, s)
      | some type ↦ (
        ok tt,
        retire type info p (record s {
          alloc_used = used_erase p s.alloc_used;
          alloc_usage =
              write_counter s.alloc_usage type
                (sub_size (s.alloc_usage type) (alloc_info_decode info).0);
        }),
      )
    ]
  ]

  unfoldable pub jitc_malloc_clear_statistics : State S → State S
  jitc_malloc_clear_statistics s = record s { alloc_watermark = s.alloc_allocated }

  unfoldable pub jitc_malloc_type : ℕ → State S → Result AllocType
  unfolding lookup
  jitc_malloc_type p s = elim (lookup p s) [
    | unknown ↦ err raise
    | broken ↦ err fail
    | known n type d ↦ ok type
  ]

  -- None stands for -1.
  unfoldable pub jitc_malloc_device : ℕ → State S → Result (Option ℕ)
  unfolding lookup is_host
  jitc_malloc_device p s = elim (lookup p s) [
    | unknown ↦ err raise
    | broken ↦ err fail
    | known n type device ↦ ok (if is_host type then none else some device)
  ]

  -- One host function of the stream runs: the oldest record goes to the cache.
  unfoldable pub run_one : State S → State S
  unfolding free_push
  run_one s = elim s.pending [
    | [] ↦ s
    | (info, p) ∷ rest ↦ record s { pending = rest; alloc_free = free_push info p s.alloc_free }
  ]
