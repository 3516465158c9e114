-- ===== src/RobinMap.antt =====
-- `tsl::robin_map` (ext/robin_map, a submodule) as the code uses it: a finite map with `find`,
-- `try_emplace` or `operator[]` (`put`), `erase_fast` and `clear`, with its documented laws.
-- `beq` is the map's KeyEqual parameter.
pub mod Assoc
use enoki_jit.Prelude.{Bool, true, ◌≡◌, ◌↔◌, Option, none, some, if◌then◌else◌}

pub record RobinMap (K V : Type 0) : Type 1 where
  pub Map : Type 0
  pub beq : K → K → Bool
  pub beq_iff : (a b : K) → (beq a b ≡ true) ↔ (a ≡ b)
  pub empty : Map
  pub find : Map → K → Option V
  pub put : Map → K → V → Map
  pub erase : Map → K → Map
  pub find-empty : (k : K) → find empty k ≡ none
  pub find-put :
      (m : Map) (k j : K) (v : V) → find (put m k v) j ≡ (if beq j k then some v else find m j)
  pub find-erase : (m : Map) (k j : K) → find (erase m k) j ≡ (if beq j k then none else find m j)
