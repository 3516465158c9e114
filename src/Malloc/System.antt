-- ===== src/Malloc/System.antt =====
-- What src/malloc.cpp calls: the C library's and the CUDA driver's memory functions. `Os` is the
-- state behind them, an address is a number, and a failed request gives none, except that `mmap`
-- gives `MAP_FAILED`.
use enoki_jit.Prelude.{
  ℕ, ◌-◌, ◌^◌, ◌≡◌, ◌≢◌, Bool, false, ◌&&◌, ◌||◌, not, ◌==◌, Option, none, some,
}

pub record System : Type 1 where
  pub Os : Type 0
  pub posix_memalign : ℕ → Os → Option ℕ × Os
  -- The first argument is whether `MAP_HUGETLB` is set.
  pub mmap : Bool → ℕ → Os → ℕ × Os
  pub free : ℕ → Os → Os
  pub munmap : ℕ → ℕ → Os → Os
  pub cu_mem_alloc_host : ℕ → Os → Option ℕ × Os
  pub cu_mem_alloc_async : ℕ → Os → Option ℕ × Os
  pub cu_mem_alloc : ℕ → Os → Option ℕ × Os
  pub cu_mem_free_host : ℕ → Os → Os
  pub cu_mem_free_async : ℕ → Os → Os
  pub cu_mem_free : ℕ → Os → Os

-- `MAP_FAILED`, which is `(void *) -1`.
unfoldable pub map_failed : ℕ
map_failed = 2 ^ 64 - 1

-- The address `p` was handed out between `a` and `b`: it was not in use, and is not null.
abbrev pub Grants : {Os : Type 0} → (Os → ℕ → Bool) → Os → ℕ → Os → Type 0
Grants in_use a p b =
    (p ≢ 0) × (in_use a p ≡ false) × ((q : ℕ) → in_use b q ≡ ((q == p) || in_use a q))

abbrev pub Gives : {Os : Type 0} → (Os → ℕ → Bool) → Os → Option ℕ × Os → Type 0
Gives in_use a (none, b) = (q : ℕ) → in_use b q ≡ in_use a q
Gives in_use a (some p, b) = Grants in_use a p b

abbrev pub Takes : {Os : Type 0} → (Os → ℕ → Bool) → Os → ℕ → Os → Type 0
Takes in_use a p b = (q : ℕ) → in_use b q ≡ (not (q == p) && in_use a q)

-- The documented behaviour: a request that is granted gives an address that is not in use, a
-- release takes back that address and no other.
pub record Lawful (S : System) : Type 0 where
  pub in_use : S.Os → ℕ → Bool
  pub null_unused : (o : S.Os) → in_use o 0 ≡ false
  pub posix_memalign_gives : (n : ℕ) (o : S.Os) → Gives in_use o (S.posix_memalign n o)
  pub mmap_fails :
      (huge : Bool) (n : ℕ) (o : S.Os)
      → (S.mmap huge n o).0 ≡ map_failed
      → (q : ℕ) → in_use (S.mmap huge n o).1 q ≡ in_use o q
  pub mmap_grants :
      (huge : Bool) (n : ℕ) (o : S.Os)
      → (S.mmap huge n o).0 ≢ map_failed
      → Grants in_use o (S.mmap huge n o).0 (S.mmap huge n o).1
  pub cu_mem_alloc_host_gives : (n : ℕ) (o : S.Os) → Gives in_use o (S.cu_mem_alloc_host n o)
  pub cu_mem_alloc_async_gives : (n : ℕ) (o : S.Os) → Gives in_use o (S.cu_mem_alloc_async n o)
  pub cu_mem_alloc_gives : (n : ℕ) (o : S.Os) → Gives in_use o (S.cu_mem_alloc n o)
  pub free_takes : (p : ℕ) (o : S.Os) → Takes in_use o p (S.free p o)
  pub munmap_takes : (p n : ℕ) (o : S.Os) → Takes in_use o p (S.munmap p n o)
  pub cu_mem_free_host_takes : (p : ℕ) (o : S.Os) → Takes in_use o p (S.cu_mem_free_host p o)
  pub cu_mem_free_async_takes : (p : ℕ) (o : S.Os) → Takes in_use o p (S.cu_mem_free_async p o)
  pub cu_mem_free_takes : (p : ℕ) (o : S.Os) → Takes in_use o p (S.cu_mem_free p o)
