-- ===== src/Tests/Blocks.antt =====
-- src/malloc.cpp: a host block is requested, given back and requested again, and requests fail.
use enoki_jit.Prelude.{◌≢◌, ℕ, ◌^◌, ◌≤◌, ◌<◌, ◌≡◌, refl, true, false, none, some, [], arith, ◌⊎◌}
use enoki_jit.Prelude.Result.{ok, err, raise}
use enoki_jit.Types.{AllocType}
use enoki_jit.Malloc.Round.{round_pow2, smear, smear_32, smear_64}
use enoki_jit.Malloc.Round.Least.{IsRounded, round_pow2_least}
use enoki_jit.Malloc.Round.Block.{Holds}
use enoki_jit.Malloc.Info.{
  is_host, block_size, alloc_info_encode, alloc_info_decode, alloc_info_decode-encode,
}
use enoki_jit.Malloc.System.{map_failed}
use enoki_jit.Malloc.Tables.{free_pop, used_find, used_emplace}
use enoki_jit.Malloc.State.{State}
use enoki_jit.Malloc.Cache.{
  hugepage_size, aligned_malloc, request, jitc_flush_malloc_cache, trim_cache, release_cache,
  synchronize, run_pending, add_size,
}
use enoki_jit.Malloc.Alloc.{
  target, allocate, choose, allocate_new, conclude, attempt_twice, after_first, second_attempt,
  count_new, count_used, jitc_malloc, jitc_free,
}
use enoki_jit.Malloc.Migrate.{is_swap, jitc_malloc_migrate}
use enoki_jit.Malloc.Accounts.{IsValid, Uses}
use enoki_jit.Malloc.Accounts.Flush.{Flushed, jitc_flush_malloc_cache-Flushed}
use enoki_jit.Malloc.Accounts.Alloc.{Served, jitc_malloc-Served}
use enoki_jit.Malloc.Accounts.Free.{loses, is_lost, Freed, jitc_free-Freed}
use enoki_jit.Malloc.Accounts.Reuse.{Restored, jitc_malloc-jitc_free}
use enoki_jit.Malloc.Accounts.Failure.{
  charged, allocate_new_charges_failure, jitc_malloc_returns_map_failed,
}
use enoki_jit.Malloc.Accounts.Move.{jitc_malloc_migrate-IsValid}
use enoki_jit.Malloc.Accounts.Runs
use enoki_jit.Malloc.Accounts.Runs.{new_state, Run, Run-IsValid}
use enoki_jit.Tests.Memory.{highest, fresh, serve, map_memory, memory, lawful, plain, fresh_start}

round_pow2_least_example :
    (1 ≤ 100) × (100 ≤ 2 ^ 63) × IsRounded 100 (round_pow2 100)
    ⊎ ((◌≡◌ {A = ℕ} 100 0) ⊎ (2 ^ 63 < 100)) × (round_pow2 100 ≡ 0)
round_pow2_least_example = round_pow2_least 100 (omega arith)

alloc_info_decode-encode_example :
    alloc_info_decode (alloc_info_encode 4096 AllocType.device 3) ≡ (4096, some AllocType.device, 3)
alloc_info_decode-encode_example =
    alloc_info_decode-encode 4096 AllocType.device 3 (omega arith) (omega arith)

-- 100 bytes are rounded to 128, and come at the address 1.
unfoldable one_block : State (memory true)
unfolding memory plain fresh_start jitc_malloc target allocate choose allocate_new conclude
    attempt_twice after_first request aligned_malloc hugepage_size serve fresh highest free_pop
    new_state block_size is_host round_pow2 smear_64 smear_32 smear alloc_info_encode count_used
    count_new map_failed used_emplace used_find add_size
one_block = (jitc_malloc (memory true) plain AllocType.host 100 (fresh_start true)).1

first_block :
    jitc_malloc (memory true) plain AllocType.host 100 (fresh_start true) ≡ (ok 1, one_block)
unfolding one_block
first_block = refl

unfoldable one_run : Run (memory true) plain one_block
unfolding plain fresh_start map_failed
one_run =
    Runs.Run.malloc AllocType.host 100 1 (fresh_start true) one_block (Runs.Run.start [])
      (omega arith) (omega arith) (omega arith) tt tt first_block (omega arith)

valid_block : IsValid (memory true) (lawful true) one_block
valid_block = Run-IsValid (memory true) (lawful true) plain one_block one_run

-- The block is given back, and waits in the cache.
unfoldable spare_block : State (memory true)
unfolding one_block jitc_free
spare_block = (jitc_free (memory true) 1 one_block).1

spare_run : Run (memory true) plain spare_block
unfolding spare_block one_block loses is_lost alloc_info_decode
spare_run = Runs.Run.free 1 one_block one_run refl

Run-IsValid_example : IsValid (memory true) (lawful true) spare_block
Run-IsValid_example = Run-IsValid (memory true) (lawful true) plain spare_block spare_run

valid_spare : IsValid (memory true) (lawful true) spare_block
valid_spare = Run-IsValid (memory true) (lawful true) plain spare_block spare_run

jitc_malloc-Served_example :
    Holds 100 (block_size 8 AllocType.host 100)
    × Served
        (memory true)
        (lawful true)
        AllocType.host
        (block_size 8 AllocType.host 100)
        (fresh_start true)
        (jitc_malloc (memory true) plain AllocType.host 100 (fresh_start true))
unfolding plain fresh_start
jitc_malloc-Served_example =
    jitc_malloc-Served (memory true) (lawful true) plain AllocType.host 100 (fresh_start true)
      (omega arith) (omega arith) (omega arith) tt tt
      (Run-IsValid (memory true) (lawful true) plain (fresh_start true) (Runs.Run.start []))

jitc_free-Freed_example :
    ((◌≡◌ {A = ℕ} 1 0) × (jitc_free (memory true) 1 one_block ≡ (ok tt, one_block)))
    ⊎ ((◌≢◌ {A = ℕ} 1 0)
          × (used_find 1 one_block.alloc_used ≡ none)
          × (jitc_free (memory true) 1 one_block ≡ (err raise, one_block))
        ⊎ ((◌≢◌ {A = ℕ} 1 0)
            × ((info : ℕ) × (used_find 1 one_block.alloc_used ≡ some info))
            × ((s' : State (memory true)) × (jitc_free (memory true) 1 one_block ≡ (ok tt, s'))
                × Freed (memory true) (lawful true) 1 one_block s')))
unfolding one_block loses is_lost alloc_info_decode
jitc_free-Freed_example = jitc_free-Freed (memory true) (lawful true) 1 one_block refl valid_block

jitc_flush_malloc_cache-Flushed_example :
    (s' : State (memory true)) × (jitc_flush_malloc_cache (memory true) plain true spare_block
      ≡ (ok tt, s'))
    × Flushed (memory true) (lawful true) plain spare_block s'
unfolding spare_block one_block jitc_free alloc_info_decode
jitc_flush_malloc_cache-Flushed_example =
    jitc_flush_malloc_cache-Flushed (memory true) (lawful true) plain true spare_block valid_spare
      refl

jitc_malloc-jitc_free_example :
    (s1 : State (memory true)) × (jitc_free (memory true) 1 one_block ≡ (ok tt, s1))
    × ((s2 : State (memory true)) × (jitc_malloc (memory true) plain AllocType.host 100 s1
          ≡ (ok 1, s2))
        × Restored (memory true) (lawful true) plain one_block s2)
unfolding one_block plain used_find
jitc_malloc-jitc_free_example =
    jitc_malloc-jitc_free (memory true) (lawful true) plain AllocType.host 100 1 one_block
      valid_block refl (omega arith) (omega arith) (omega arith) (omega arith) refl

unfoldable block_Uses : Uses (memory true) one_block 1 128 AllocType.host 0
unfolding one_block used_find alloc_info_decode alloc_info_encode
block_Uses = record {
  info = alloc_info_encode 128 AllocType.host 0;
  entry = refl;
  decoded = refl;
  small = omega arith;
  near = omega arith;
}

jitc_malloc_migrate-IsValid_example :
    (s' : State (memory true)) × (jitc_malloc_migrate
        (memory true)
        plain
        1
        AllocType.host_async
        true
        one_block
      ≡ (ok 1, s'))
    × IsValid (memory true) (lawful true) s'
    × Uses (memory true) s' 1 128 AllocType.host_async 0
unfolding is_swap
jitc_malloc_migrate-IsValid_example =
    jitc_malloc_migrate-IsValid (memory true) (lawful true) plain 1 128 AllocType.host
      AllocType.host_async 0 one_block valid_block (λ e. omega arith) refl block_Uses

-- The state after both requests have failed.
unfoldable failed : State (memory false)
unfolding memory plain fresh_start attempt_twice after_first second_attempt request aligned_malloc
    hugepage_size serve fresh highest new_state jitc_flush_malloc_cache trim_cache release_cache
    synchronize run_pending
failed = (attempt_twice (memory false) plain AllocType.host false 128 (fresh_start false)).1

failed_lem :
    attempt_twice (memory false) plain AllocType.host false 128 (fresh_start false)
    ≡ (ok none, failed)
unfolding failed
failed_lem = refl

allocate_new_charges_failure_example :
    (s' : State (memory false)) × (allocate_new
        (memory false)
        plain
        AllocType.host
        false
        128
        (alloc_info_encode 128 AllocType.host 0)
        (fresh_start false)
      ≡ (err raise, s'))
    × (s' ≡ charged AllocType.host 128 failed)
    × (¬ IsValid (memory false) (lawful false) s')
unfolding fresh_start
allocate_new_charges_failure_example =
    allocate_new_charges_failure (memory false) (lawful false) plain AllocType.host false 128
      (alloc_info_encode 128 AllocType.host 0) (fresh_start false) failed
      (Run-IsValid (memory false) (lawful false) plain (fresh_start false) (Runs.Run.start []))
      failed_lem (omega arith) (omega arith)

jitc_malloc_returns_map_failed_example :
    (s' : State (memory false)) × (jitc_malloc
        (memory false)
        plain
        AllocType.host
        3000000
        (fresh_start false)
      ≡ (ok map_failed, s'))
unfolding plain fresh_start hugepage_size block_size is_host round_pow2 smear_64 smear_32 smear
    memory map_memory new_state free_pop
jitc_malloc_returns_map_failed_example =
    jitc_malloc_returns_map_failed (memory false) (lawful false) plain AllocType.host 3000000
      (fresh_start false) refl (λ e. omega arith) (omega arith) refl refl refl
