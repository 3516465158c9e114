-- ===== src/Malloc/Tables.antt =====
-- The containers of the allocator in src/malloc.cpp: `AllocUsedMap`, `AllocInfoMap`, and the
-- counters per type of memory. A map is a list of entries, of which the first with the key counts; a
-- vector is kept with its back first.
pub mod Weights
use enoki_jit.Prelude.{
  ℕ, ◌+◌, ◌*◌, Bool, ◌==◌, if◌then◌else◌, Option, none, some, List, [], ◌∷◌, length,
}
use enoki_jit.Types.{AllocType}
use enoki_jit.Malloc.Info.{alloc_type_code, alloc_info_decode}

-- One number per type of memory.
abbrev pub Counters : Type 0
Counters = AllocType → ℕ

abbrev pub write_counter : Counters → AllocType → ℕ → Counters
write_counter c type n other = if alloc_type_code other == alloc_type_code type then n else c other

abbrev pub UsedMap : Type 0
UsedMap = List (ℕ × ℕ)

abbrev pub FreeMap : Type 0
FreeMap = List (ℕ × List ℕ)

unfoldable pub used_find : ℕ → UsedMap → Option ℕ
used_find p [] = none
used_find p ((q, info) ∷ u) = if p == q then some info else used_find p u

-- `emplace` keeps an entry that is there.
unfoldable pub used_emplace : ℕ → ℕ → UsedMap → UsedMap
unfolding used_find
used_emplace p info u = elim (used_find p u) [ some old ↦ u | none ↦ (p, info) ∷ u ]

unfoldable pub used_erase : ℕ → UsedMap → UsedMap
used_erase p [] = []
used_erase p ((q, info) ∷ u) = if p == q then u else (q, info) ∷ used_erase p u

-- `it.value() = info`
unfoldable pub used_assign : ℕ → ℕ → UsedMap → UsedMap
used_assign p info [] = []
used_assign p info ((q, old) ∷ u) =
    if p == q then (q, info) ∷ u else (q, old) ∷ used_assign p info u

-- `state.alloc_free[info].push_back(ptr)`
unfoldable pub free_push : ℕ → ℕ → FreeMap → FreeMap
free_push info p [] = (info, p ∷ []) ∷ []
free_push info p ((other, ps) ∷ m) =
    if info == other then (info, p ∷ ps) ∷ m else (other, ps) ∷ free_push info p m

-- The back of the vector of `info`, and the map without it.
unfoldable pub free_pop : ℕ → FreeMap → Option (ℕ × FreeMap)
free_pop info [] = none
free_pop info ((other, []) ∷ m) =
    let rest = free_pop info m in
    if info == other
    then none
    else elim rest [ none ↦ none | some (p, m') ↦ some (p, (other, []) ∷ m') ]
free_pop info ((other, q ∷ ps) ∷ m) =
    let rest = free_pop info m in
    if info == other
    then some (q, (other, ps) ∷ m)
    else elim rest [ none ↦ none | some (p, m') ↦ some (p, (other, q ∷ ps) ∷ m') ]
