-- ===== src/Registry/Slots.antt =====
-- src/registry.cpp: `Ptr`, `Domain`, and the parts of `jitc_registry_put` and
-- `jitc_registry_remove` that change one domain. `std::priority_queue` with `std::greater` is an
-- ascending list; the null pointer is 0.
pub mod Laws
pub mod Clearing
use enoki_jit.Prelude.PriorityQueue.{pq_push}
use enoki_jit.Prelude.{
  ℕ, zero, suc, ◌+◌, ◌-◌, max, Bool, true, false, List, [], ◌∷◌, ◌++◌, Option, none, some, length,
  get_elem?, set, ltb, ◌==◌, if◌then◌else◌,
}

pub record Ptr : Type 0 where
  pub ptr : ℕ
  pub active : Bool

pub record Domain : Type 0 where
  pub id_bound : ℕ
  pub fwd_map : List Ptr
  pub free_pq : List ℕ

-- `fwd_map[i].ptr`; an index out of range is undefined behaviour, which reads as null here.
abbrev pub ptr_at : List Ptr → ℕ → ℕ
ptr_at xs i = elim (get_elem? xs i) [ none ↦ 0 | some p ↦ p.ptr ]

-- The branch that takes `index` from the queue, and the branch that appends.
unfoldable pub reuse_slot : Domain → ℕ → ℕ → List ℕ → Domain
reuse_slot d p index rest = record {
  id_bound = max d.id_bound (index + 1);
  fwd_map = set d.fwd_map index (record { ptr = p; active = true });
  free_pq = rest;
}

unfoldable pub append_slot : Domain → ℕ → Domain
append_slot d p = record d {
  id_bound = max d.id_bound (length d.fwd_map + 1);
  fwd_map = d.fwd_map ++ record { ptr = p; active = true } ∷ [];
}

-- "Allocate the lowest-valued ID": the index chosen, and the domain after.
unfoldable pub alloc_id : Domain → ℕ → ℕ × Domain
unfolding reuse_slot append_slot
alloc_id d p = elim d.free_pq [
  | index ∷ rest ↦ (index, reuse_slot d p index rest)
  | [] ↦ (length d.fwd_map, append_slot d p)
]

-- `while (id_bound > 0 && !fwd_map[id_bound - 1].ptr) id_bound--;`
unfoldable pub shrink_bound : List Ptr → ℕ → ℕ
shrink_bound xs zero = zero
shrink_bound xs (suc b) = if ptr_at xs b == 0 then shrink_bound xs b else suc b

-- The domain after `jitc_registry_remove` has found the pointer at `index`.
unfoldable pub free_id : Domain → ℕ → Domain
unfolding shrink_bound
free_id d index =
    let fwd = set d.fwd_map index (record { ptr = 0; active = false }) in
    record {
      id_bound = if d.id_bound == index + 1 then shrink_bound fwd d.id_bound else d.id_bound;
      fwd_map = fwd;
      free_pq = pq_push index d.free_pq;
    }

-- The part of `jitc_registry_clear` for one domain.
unfoldable pub deactivate : List Ptr → List Ptr
deactivate [] = []
deactivate (p ∷ ps) = record p { active = false } ∷ deactivate ps

unfoldable pub clear_domain : Domain → Domain
unfolding deactivate
clear_domain d = record { id_bound = 0; fwd_map = deactivate d.fwd_map; free_pq = d.free_pq }
