-- ===== src/Registry.antt =====
-- src/registry.cpp: the registry over its domains. `D` and `P` are the two `tsl::robin_map`s,
-- `domain_ids` and `rev_map`; a vector that is read out of range is a failure.
pub mod Slots
pub mod Invariant
pub mod Lookup
use Prim.Native.String.{String}
use enoki_jit.Prelude.{
  ℕ, zero, suc, ◌+◌, ◌-◌, Bool, true, false, List, [], ◌∷◌, ◌++◌, Option, none, some, map, length,
  get_elem?, set, ltb, leb, ◌==◌, if◌then◌else◌,
}
use enoki_jit.Prelude.Result.{Result, ok, err, raise, fail, ◌>>=◌}
use enoki_jit.RobinMap.{RobinMap}
use Slots.{Ptr, Domain, ptr_at, alloc_id, free_id, clear_domain}

pub record ReverseKey : Type 0 where
  pub domain_id : ℕ
  pub index : ℕ

-- `DomainKey`: variant and domain, compared by their text.
abbrev pub DomainKey : Type 0
DomainKey = String × String

abbrev pub new_domain : Domain
new_domain = record { id_bound = 0; fwd_map = []; free_pq = [] }

abbrev pub or_fail {ℓ} : {A : Type ℓ} → Option A → Result A
or_fail none = err fail
or_fail (some a) = ok a

module _ (D : RobinMap DomainKey ℕ) (P : RobinMap ℕ ReverseKey) where
  pub record Registry : Type 0 where
    pub domain_ids : D.Map
    pub domains : List Domain
    pub rev_map : P.Map

  unfoldable pub new_registry : Registry
  new_registry = record { domain_ids = D.empty; domains = []; rev_map = P.empty }

  -- "Allocate a domain entry for the key (variant, domain) if unregistered".
  unfoldable pub ensure_domain : Registry → DomainKey → ℕ × Registry
  ensure_domain r key = elim (D.find r.domain_ids key) [
    | some id ↦ (id, r)
    | none ↦ (
      length r.domains,
      record r {
        domain_ids = D.put r.domain_ids key (length r.domains);
        domains = r.domains ++ new_domain ∷ [];
      },
    )
  ]

  -- The rest of `jitc_registry_put`, in the domain found.
  unfoldable pub put_in : Registry → ℕ → ℕ → Result (ℕ × Registry)
  unfolding alloc_id
  put_in r id ptr = do
    d ← or_fail (get_elem? r.domains id)
    let (index, d') = alloc_id d ptr
    ok (
      index + 1,
      record r {
        domains = set r.domains id d';
        rev_map = P.put r.rev_map ptr (record { domain_id = id; index = index });
      },
    )

  unfoldable pub registry_put : Registry → DomainKey → ℕ → Result (ℕ × Registry)
  unfolding ensure_domain put_in
  registry_put r key ptr = elim (P.find r.rev_map ptr) [
    | some _ ↦ err raise
    | none ↦ let (id, r') = ensure_domain r key in put_in r' id ptr
  ]

  unfoldable pub registry_remove : Registry → ℕ → Result Registry
  unfolding free_id
  registry_remove r ptr = elim (P.find r.rev_map ptr) [
    | none ↦ ok r
    | some rk ↦ do
      d ← or_fail (get_elem? r.domains rk.domain_id)
      if ptr_at d.fwd_map rk.index == ptr
          then ok (record r {
            domains = set r.domains rk.domain_id (free_id d rk.index);
            rev_map = P.erase r.rev_map ptr;
          })
          else err fail
  ]

  unfoldable pub registry_id : Registry → ℕ → Result ℕ
  registry_id r ptr =
      if ptr == 0
      then ok 0
      else elim (P.find r.rev_map ptr) [ none ↦ err raise | some rk ↦ ok (rk.index + 1) ]

  unfoldable pub registry_id_bound : Registry → DomainKey → Result ℕ
  registry_id_bound r key = elim (D.find r.domain_ids key) [
    | none ↦ ok 0
    | some id ↦ do d ← or_fail (get_elem? r.domains id); ok d.id_bound
  ]

  -- The writes of `jitc_registry_get_pointers` to `dest`, from slot `i` on.
  unfoldable pub copy_active : List Ptr → ℕ → (ℕ → ℕ) → ℕ → ℕ
  copy_active [] i dest = dest
  copy_active (p ∷ ps) i dest =
      copy_active ps (suc i)
        (λ j. if (j == i) then (if p.active then p.ptr else dest j) else dest j)

  unfoldable pub registry_get_pointers : Registry → DomainKey → (ℕ → ℕ) → Result (ℕ → ℕ)
  unfolding copy_active
  registry_get_pointers r key dest = elim (D.find r.domain_ids key) [
    | none ↦ ok dest
    | some id ↦ do d ← or_fail (get_elem? r.domains id); ok (copy_active d.fwd_map 0 dest)
  ]

  unfoldable pub registry_ptr : Registry → DomainKey → ℕ → Result ℕ
  registry_ptr r key id = if id == 0 then ok 0 else elim (D.find r.domain_ids key) [
    | none ↦ ok 0
    | some k ↦ do
      d ← or_fail (get_elem? r.domains k)
      elim (get_elem? d.fwd_map (id - 1)) [
        | none ↦ err raise
        | some entry ↦ ok (if entry.active then entry.ptr else 0)
      ]
  ]

  unfoldable pub registry_peek : Registry → DomainKey → Result ℕ
  registry_peek r key = elim (D.find r.domain_ids key) [
    | none ↦ ok 0
    | some id ↦ do
      d ← or_fail (get_elem? r.domains id)
      if d.id_bound == 0 then ok 0 else ok (ptr_at d.fwd_map (d.id_bound - 1))
  ]

  unfoldable pub registry_clear : Registry → Registry
  unfolding clear_domain
  registry_clear r = record r { domains = map clear_domain r.domains; rev_map = P.empty }
