-- ===== src/Malloc/Accounts.antt =====
-- The invariant of the allocator of src/malloc.cpp: the counters are the bytes of the blocks, each
-- address is owned once and in use by the system, and each info can be decoded.
pub mod Release
pub mod Returned
pub mod Flush
pub mod Requests
pub mod Free
pub mod Runs
pub mod Failure
pub mod Move
pub mod Reuse
pub mod Alloc
pub mod Spare
use enoki_jit.Prelude.{
  ℕ, ◌+◌, ◌%◌, ◌^◌, ◌≤◌, ◌<◌, ◌≡◌, Bool, true, false, ◌==◌, if◌then◌else◌, Option, none, some, List,
  [], ◌∷◌,
}
use enoki_jit.Types.{AllocType}
use enoki_jit.Malloc.Info.{alloc_info_decode}
use enoki_jit.Malloc.System.{System, Lawful}
use enoki_jit.Malloc.Tables.{used_find}
use enoki_jit.Malloc.Tables.Weights.{weigh_used, weigh_free, weigh_keys, weigh_pending}
use enoki_jit.Malloc.State.{State}
use enoki_jit.Malloc.Migrate.{same_type}

-- The weights: the bytes that a block counts for a type, the indicator of an address, and the
-- indicator of an info that has no type.
unfoldable pub bytes : AllocType → ℕ → ℕ → ℕ
bytes type info p = elim (alloc_info_decode info).1 [
  | none ↦ 0
  | some other ↦ if same_type other type then (alloc_info_decode info).0 else 0
]

unfoldable pub at : ℕ → ℕ → ℕ → ℕ
at q info p = if q == p then 1 else 0

unfoldable pub unread : ℕ → ℕ → ℕ
unread info p = elim (alloc_info_decode info).1 [ none ↦ 1 | some other ↦ 0 ]

abbrev pub number : Bool → ℕ
number true = 1
number false = 0

module _ (S : System) where
  abbrev pub total : (ℕ → ℕ → ℕ) → State S → ℕ
  total w s = weigh_used w s.alloc_used + weigh_free w s.alloc_free + weigh_pending w s.pending

  -- A block in use, by its decoded entry.
  pub record Uses (s : State S) (p size : ℕ) (type : AllocType) (device : ℕ) : Type 0 where
    pub info : ℕ
    pub entry : used_find p s.alloc_used ≡ some info
    pub decoded : alloc_info_decode info ≡ (size, some type, device)
    pub small : size < 2 ^ 48
    pub near : device < 256

  module _ (L : Lawful S) where
    -- The addresses that `c` counts are in use, and each is counted once.
    abbrev pub Keeps : (ℕ → ℕ) → S.Os → Type 0
    Keeps c os = (q : ℕ) → c q ≤ number (L.in_use os q)

    pub record IsValid (s : State S) : Type 0 where
      pub usage : (t : AllocType) → s.alloc_usage t ≡ weigh_used (bytes t) s.alloc_used % 2 ^ 64
      pub allocated : (t : AllocType) → s.alloc_allocated t ≡ total (bytes t) s % 2 ^ 64
      pub owned : (q : ℕ) → total (at q) s ≤ number (L.in_use s.os q)
      pub decodes :
          weigh_used unread s.alloc_used
            + weigh_keys unread s.alloc_free
            + weigh_pending unread s.pending
          ≡ 0
