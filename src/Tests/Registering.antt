-- ===== src/Tests/Registering.antt =====
-- src/registry.cpp: a registry with three instances of one class, of which one was removed.
use enoki_jit.Prelude.{
  ℕ, ◌≤◌, ◌<◌, ◌≡◌, refl, ◌≢◌, ◌==◌, true, some, [], ◌∷◌, get_elem?, if◌then◌else◌, arith,
}
use enoki_jit.Prelude.Result.{Result, ok, err}
use enoki_jit.RobinMap.Assoc.{nat_map}
use enoki_jit.Registry.{
  ReverseKey, DomainKey, Registry, new_registry, registry_put, registry_remove, registry_id,
  registry_id_bound, registry_ptr, registry_peek, ensure_domain, put_in,
}
use enoki_jit.Registry.Slots.{Domain, ptr_at, append_slot, alloc_id, free_id, clear_domain}
use enoki_jit.Registry.Slots.Laws
use enoki_jit.Registry.Slots.Clearing
use enoki_jit.Registry.Invariant
use enoki_jit.Registry.Lookup
use enoki_jit.Tests.Maps.{domain_map}

-- The registry after the code ran on it; a failure leaves it empty, which no test relies on.
abbrev after :
    Registry domain_map (nat_map ReverseKey)
    → Result (ℕ × Registry domain_map (nat_map ReverseKey))
    → Registry domain_map (nat_map ReverseKey)
after s (ok (i, r)) = r
after s (err e) = s

abbrev bsdf : DomainKey
bsdf = ("scalar", "BSDF")

unfoldable start : Registry domain_map (nat_map ReverseKey)
unfolding new_registry
start = new_registry domain_map (nat_map ReverseKey)

start-IsValid : Invariant.IsValid domain_map (nat_map ReverseKey) start
unfolding start
start-IsValid = Invariant.new_registry-IsValid domain_map (nat_map ReverseKey)

-- One instance, at 100.
unfoldable single : Registry domain_map (nat_map ReverseKey)
unfolding start registry_put
single = after start (registry_put domain_map (nat_map ReverseKey) start bsdf 100)

single_lem : registry_put domain_map (nat_map ReverseKey) start bsdf 100 ≡ ok (1, single)
unfolding start single registry_put domain_map nat_map new_registry
single_lem = refl

single-IsValid : Invariant.IsValid domain_map (nat_map ReverseKey) single
single-IsValid =
    Lookup.registry_put-IsValid domain_map (nat_map ReverseKey) start single bsdf 100 1
      start-IsValid (ground arith) single_lem

registry_put-Registers_example :
    (id : ℕ) × (r' : Registry domain_map (nat_map ReverseKey)) × (registry_put domain_map
        (nat_map ReverseKey)
        single
        bsdf
        101
      ≡ ok (id, r'))
    × Lookup.Registers domain_map (nat_map ReverseKey) single bsdf 101 id r'
unfolding nat_map start single registry_put ensure_domain put_in new_registry domain_map
registry_put-Registers_example =
    Lookup.registry_put-Registers domain_map (nat_map ReverseKey) single single-IsValid bsdf 101
      (ground arith) refl

registry_remove-Removes_example :
    (r' : Registry domain_map (nat_map ReverseKey)) × (registry_remove domain_map
        (nat_map ReverseKey)
        single
        100
      ≡ ok r')
    × Lookup.Removes domain_map (nat_map ReverseKey) single single-IsValid 100 r'
registry_remove-Removes_example =
    Lookup.registry_remove-Removes domain_map (nat_map ReverseKey) single single-IsValid 100

registry_id_bound_tight_example :
    ((id p : ℕ)
      → registry_ptr domain_map (nat_map ReverseKey) single bsdf id ≡ ok p
      → p ≢ 0
      → id ≤ 1)
    × (◌≢◌ {A = ℕ} 1 0
        → (p : ℕ) × (p ≢ 0)
          × (registry_ptr domain_map (nat_map ReverseKey) single bsdf 1 ≡ ok p)
          × (registry_peek domain_map (nat_map ReverseKey) single bsdf ≡ ok p)
          × (registry_id domain_map (nat_map ReverseKey) single p ≡ ok 1))
unfolding nat_map start single registry_put registry_id_bound domain_map new_registry
registry_id_bound_tight_example =
    Lookup.registry_id_bound_tight domain_map (nat_map ReverseKey) single single-IsValid bsdf 1 refl

-- A domain with one slot, in use.
abbrev full : Domain
full = record { id_bound = 1; fwd_map = record { ptr = 100; active = true } ∷ []; free_pq = [] }

full-IsValid : Laws.IsValid full
unfolding alloc_id append_slot
full-IsValid = Laws.alloc_id-IsValid Laws.empty-IsValid 100 (ground arith)

alloc_id_lowest_example :
    let (i, d') = alloc_id full 101 in
    (ptr_at full.fwd_map i ≡ 0)
    × ((j : ℕ) → j < i → ptr_at full.fwd_map j ≢ 0)
    × ((j : ℕ)
        → get_elem? d'.fwd_map j ≡ (
            if j == i
            then some (record { ptr = 101; active = true })
            else get_elem? full.fwd_map j))
alloc_id_lowest_example = Laws.alloc_id_lowest full-IsValid 101 (ground arith)

clear_domain_keeps_last_example :
    let (i, d') = alloc_id (clear_domain full) 101 in
    (i ≡ 1)
    × ((free_id d' i).id_bound ≡ 1)
    × (ptr_at (free_id d' i).fwd_map 0 ≡ 100)
    × (ptr_at full.fwd_map 0 ≢ 0)
clear_domain_keeps_last_example =
    Clearing.clear_domain_keeps_last full full-IsValid 101 0 (ground arith) refl refl
