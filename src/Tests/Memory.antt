-- ===== src/Tests/Memory.antt =====
-- A concrete memory system, and runs of the allocator of src/malloc.cpp on it.
use enoki_jit.Prelude.{
  ℕ, suc, ◌<◌, max, ◌≡◌, ◌≢◌, refl, ap, sym, Bool, true, false, not, ◌&&◌, ◌==◌, ltb, if_both,
  if_true, if_false, subst, if◌then◌else◌, Option, none, some, List, [], ◌∷◌, arith, contains,
  Bool-cases, ◌⊎◌, ◌∙◌, inl, inr,
}
use enoki_jit.Prelude.Result.{err, raise}
use enoki_jit.Malloc.State.{Setup, State}
use enoki_jit.Malloc.Accounts.Runs.{new_state}
use enoki_jit.Malloc.System.{System, Lawful, map_failed, Gives, Takes, Grants}

-- The addresses in use.
abbrev pub Live : Type 0
Live = List ℕ

unfoldable pub highest : Live → ℕ
highest [] = 0
highest (x ∷ xs) = max x (highest xs)

unfoldable pub remove : ℕ → Live → Live
remove p [] = []
remove p (x ∷ xs) = if x == p then remove p xs else x ∷ remove p xs

above_highest : (xs : Live) (n : ℕ) → highest xs < n → contains xs n ≡ false
unfolding highest
above_highest [] n h = refl
above_highest (x ∷ xs) n h = ground (arith, above_highest xs n)

remove-Takes : (p : ℕ) (xs : Live) → Takes contains xs p (remove p xs)
unfolding remove
remove-Takes p [] q = ground arith
remove-Takes p (x ∷ xs) q = ground (arith, remove-Takes p xs q)

unfoldable pub fresh : Live → ℕ
fresh os = suc (highest os)

abbrev pub used_at : Live → ℕ → Bool
used_at os q = not (q == 0) && contains os q

-- A request is granted while there are addresses below `MAP_FAILED` and the system works.
unfoldable pub serve : Bool → Live → Option ℕ × Live
unfolding fresh map_failed
serve works os =
    if works && ltb (fresh os) map_failed then (some (fresh os), fresh os ∷ os) else (none, os)

unfoldable pub map_memory : Bool → Live → ℕ × Live
unfolding fresh map_failed
map_memory works os =
    if works && ltb (fresh os) map_failed then (fresh os, fresh os ∷ os) else (map_failed, os)

unfoldable pub memory : Bool → System
unfolding serve map_memory remove
memory works = record {
  Os = Live;
  posix_memalign = λ n os. serve works os;
  mmap = λ huge n os. map_memory works os;
  free = remove;
  munmap = λ p n os. remove p os;
  cu_mem_alloc_host = λ n os. serve works os;
  cu_mem_alloc_async = λ n os. serve works os;
  cu_mem_alloc = λ n os. serve works os;
  cu_mem_free_host = remove;
  cu_mem_free_async = remove;
  cu_mem_free = remove;
}

fresh-Grants : (os : Live) → Grants used_at os (fresh os) (fresh os ∷ os)
unfolding fresh
fresh-Grants os =
    (λ e. omega arith, ground (arith, above_highest os (suc (highest os))), λ q. ground arith)

serve-Gives : (works : Bool) (os : Live) → Gives used_at os (serve works os)
unfolding serve
serve-Gives works os =
    if_both (Gives used_at os) (works && ltb (fresh os) map_failed) _ _ (fresh-Grants os)
      (λ q. refl)

remove-used : (p : ℕ) (os : Live) → Takes used_at os p (remove p os)
remove-used p os q = ground (arith, remove-Takes p os q)

below : (b : Bool) (n m : ℕ) → (b && ltb n m) ≡ true → n < m
below b n m h = ground arith

above : (n m : ℕ) → n < m → n ≢ m
above n m h e = omega arith

map_cases :
    (works : Bool) (os : Live)
    → ((map_memory works os ≡ (fresh os, fresh os ∷ os)) × (fresh os < map_failed))
      ⊎ (map_memory works os ≡ (map_failed, os))
unfolding map_memory
map_cases works os = elim (Bool-cases (works && ltb (fresh os) map_failed)) [
  | inl e ↦ inl (if_true _ _ e, below works (fresh os) map_failed e)
  | inr e ↦ inr (if_false _ _ e)
]

map_memory-fails :
    (works : Bool) (os : Live)
    → (map_memory works os).0 ≡ map_failed
    → (q : ℕ) → used_at (map_memory works os).1 q ≡ used_at os q
map_memory-fails works os e q = elim (map_cases works os) [
  | inl (r, h) ↦ absurd (above (fresh os) map_failed h (sym (ap (λ x. x.0) r) ∙ e))
  | inr r ↦ ap (λ x. used_at x.1 q) r
]

map_memory-Grants :
    (works : Bool) (os : Live)
    → (map_memory works os).0 ≢ map_failed
    → Grants used_at os (map_memory works os).0 (map_memory works os).1
map_memory-Grants works os n = elim (map_cases works os) [
  | inl (r, h) ↦ subst (λ x. Grants used_at os x.0 x.1) (sym r) (fresh-Grants os)
  | inr r ↦ absurd (n (ap (λ x. x.0) r))
]

pub lawful : (works : Bool) → Lawful (memory works)
unfolding memory
lawful works = record {
  in_use = used_at;
  null_unused = λ os. refl;
  posix_memalign_gives = λ n os. serve-Gives works os;
  mmap_fails = λ huge n os e q. map_memory-fails works os e q;
  mmap_grants = λ huge n os e. map_memory-Grants works os e;
  cu_mem_alloc_host_gives = λ n os. serve-Gives works os;
  cu_mem_alloc_async_gives = λ n os. serve-Gives works os;
  cu_mem_alloc_gives = λ n os. serve-Gives works os;
  free_takes = remove-used;
  munmap_takes = λ p n os. remove-used p os;
  cu_mem_free_host_takes = remove-used;
  cu_mem_free_async_takes = remove-used;
  cu_mem_free_takes = remove-used;
}

-- A processor with vectors of 8 lanes, and no CUDA.
unfoldable pub plain : Setup
plain = record {
  vector_width = 8;
  has_cuda = false;
  device_pool = λ d. false;
  init_thread_state = err raise;
}

unfoldable pub fresh_start : (works : Bool) → State (memory works)
unfolding memory new_state
fresh_start works = new_state (memory works) []
