-- ===== src/RobinMap/Assoc.antt =====
-- An association list meets the laws that are asked of `tsl::robin_map`.
use enoki_jit.Prelude.{
  ℕ, ◌≡◌, refl, List, [], ◌∷◌, Option, none, some, arith, if◌then◌else◌, Bool, true, ◌↔◌, ◌==◌,
  ==_iff,
}
use enoki_jit.RobinMap.{RobinMap}

module _ {K V : Type 0} (beq : K → K → Bool) where
  unfoldable pub find : List (K × V) → K → Option V
  find [] k = none
  find ((j, v) ∷ m) k = if beq k j then some v else find m k

  unfoldable pub erase : List (K × V) → K → List (K × V)
  erase [] k = []
  erase ((j, v) ∷ m) k = if beq j k then erase m k else (j, v) ∷ erase m k

  module _ (beq_iff : (a b : K) → (beq a b ≡ true) ↔ (a ≡ b)) where
    pub find-erase :
        (m : List (K × V)) (k j : K) → find (erase m k) j ≡ (if beq j k then none else find m j)
    unfolding find erase
    find-erase [] k j = ground arith
    find-erase ((i, v) ∷ m) k j =
        ground (arith, find-erase m k j, beq_iff i k, beq_iff j i, beq_iff j k)

    unfoldable pub assoc_map : RobinMap K V
    unfolding find erase
    assoc_map = record {
      Map = List (K × V);
      beq = beq;
      beq_iff = beq_iff;
      empty = [];
      find = find;
      put = λ m k v. (k, v) ∷ m;
      erase = erase;
      find-empty = λ k. refl;
      find-put = λ m k j v. refl;
      find-erase = find-erase;
    }

unfoldable pub nat_map : (V : Type 0) → RobinMap ℕ V
unfolding assoc_map
nat_map V = assoc_map ◌==◌ ==_iff
