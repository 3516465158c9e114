-- ===== src/Registry/Slots/Laws.antt =====
-- The invariant of one domain of src/registry.cpp, kept by allocation and release of an ID.
use enoki_jit.Prelude.PriorityQueue.{
  Ascends, Ascends-mono, contains_below, pq_push-contains, pq_push-Ascends,
}
use enoki_jit.Prelude.{
  ℕ, zero, suc, ◌+◌, ◌≤◌, ◌<◌, Bool, true, false, not, ◌≡◌, refl, ap, subst, ◌≢◌, ◌⊎◌, inl, inr,
  List, [], ◌∷◌, none, some, length, get_elem?, contains, ◌==◌, if◌then◌else◌, arith, get_elem?-set,
  get_elem?-append_one, get_elem?-none, get_elem?-some, ==→ne, Bool-cases, List-cases,
}
use enoki_jit.Registry.Slots.{
  Ptr, Domain, ptr_at, reuse_slot, append_slot, alloc_id, shrink_bound, free_id,
}

-- The index is in range and its slot is empty.
abbrev pub vacant : List Ptr → ℕ → Bool
vacant xs i = elim (get_elem? xs i) [ none ↦ false | some p ↦ p.ptr == 0 ]

pub record IsValid (d : Domain) : Type 0 where
  pub ascends : Ascends 0 d.free_pq
  pub free : (i : ℕ) → contains d.free_pq i ≡ vacant d.fwd_map i
  pub active : (i : ℕ) (p : Ptr) → get_elem? d.fwd_map i ≡ some p → p.active ≡ not (p.ptr == 0)
  pub above : (i : ℕ) → d.id_bound ≤ i → ptr_at d.fwd_map i ≡ 0
  pub tight : (b : ℕ) → d.id_bound ≡ suc b → ptr_at d.fwd_map b ≢ 0

pub empty-IsValid : IsValid (record { id_bound = 0; fwd_map = []; free_pq = [] })
empty-IsValid = record {
  ascends = tt;
  free = λ i. refl;
  active = λ i p h. ground arith;
  above = λ i h. refl;
  tight = λ b h. ground arith;
}

shrink_bound-le : (xs : List Ptr) (b : ℕ) → shrink_bound xs b ≤ b
unfolding shrink_bound
shrink_bound-le xs zero = omega arith
shrink_bound-le xs (suc b) = ground (arith, shrink_bound-le xs b)

shrink_bound_above :
    (xs : List Ptr) (b i : ℕ)
    → ((j : ℕ) → b ≤ j → ptr_at xs j ≡ 0)
    → shrink_bound xs b ≤ i
    → ptr_at xs i ≡ 0
unfolding shrink_bound
shrink_bound_above xs zero i h le = h i (omega arith)
shrink_bound_above xs (suc b) i h le = elim (Bool-cases (ptr_at xs b == 0)) [
  | inl e ↦
      shrink_bound_above xs b i
        (λ j l. elim (Bool-cases (j == b)) [
          | inl s ↦ ground (arith, s, e)
          | inr s ↦ h j (omega (arith, ==→ne j b s))
        ])
        (rw e at le)
  | inr e ↦ h i (rw e at le)
]

shrink_bound_tight : (xs : List Ptr) (b c : ℕ) → shrink_bound xs b ≡ suc c → ptr_at xs c ≢ 0
unfolding shrink_bound
shrink_bound_tight xs zero c e = absurd (omega arith)
shrink_bound_tight xs (suc b) c e = ground (arith, shrink_bound_tight xs b c)

module _ {d : Domain} (v : IsValid d) (p : ℕ) (live : p ≢ 0) where
  abbrev entry : Ptr
  entry = record { ptr = p; active = true }

  reuse_slot-IsValid :
      (i : ℕ) (rest : List ℕ) → d.free_pq ≡ i ∷ rest → IsValid (reuse_slot d p i rest)
  unfolding reuse_slot
  reuse_slot-IsValid i rest e =
      let (lo, asc) = subst (Ascends 0) e v.ascends in
      let taken : vacant d.fwd_map i ≡ true = ground (arith, v.free i) in
      record {
        ascends = Ascends-mono 0 (suc i) rest (omega arith) asc;
        free = λ j. ground (
          arith,
          get_elem?-set d.fwd_map i j entry,
          v.free j,
          ap (λ xs. contains xs j) e,
          contains_below (suc i) i rest asc,
          taken,
          get_elem?-none d.fwd_map i,
        );
        active = λ j q h. ground (arith, get_elem?-set d.fwd_map i j entry, v.active j q);
        above = λ j h. ground (arith, get_elem?-set d.fwd_map i j entry, v.above j);
        tight = λ b h. ground (
          arith,
          get_elem?-set d.fwd_map i b entry,
          taken,
          get_elem?-none d.fwd_map i,
          v.tight b,
        );
      }

  append_slot-IsValid : d.free_pq ≡ [] → IsValid (append_slot d p)
  unfolding append_slot
  append_slot-IsValid e = record {
    ascends = v.ascends;
    free = λ j.
        ground
          (arith, get_elem?-append_one d.fwd_map j entry, v.free j, get_elem?-none d.fwd_map j);
    active = λ j q h. ground (arith, get_elem?-append_one d.fwd_map j entry, v.active j q);
    above = λ j h. ground (arith, get_elem?-append_one d.fwd_map j entry, v.above j);
    tight = λ b h.
        ground
          (arith, get_elem?-append_one d.fwd_map b entry, get_elem?-none d.fwd_map b, v.tight b);
  }

  pub alloc_id-IsValid : IsValid (alloc_id d p).1
  unfolding alloc_id
  alloc_id-IsValid = elim (List-cases d.free_pq) [
    | inl e ↦ rw (e, alloc_id) (append_slot-IsValid e)
    | inr (i, rest, e) ↦ rw (e, alloc_id) (reuse_slot-IsValid i rest e)
  ]

  -- In a valid domain, the slot chosen for a pointer that is not null was empty, every lower slot is
  -- taken, and only that slot changes.
  pub alloc_id_lowest :
      let (i, d') = alloc_id d p in
      (ptr_at d.fwd_map i ≡ 0)
      × ((j : ℕ) → j < i → ptr_at d.fwd_map j ≢ 0)
      × ((j : ℕ) → get_elem? d'.fwd_map j ≡ (if j == i then some entry else get_elem? d.fwd_map j))
  unfolding alloc_id
  alloc_id_lowest = elim (List-cases d.free_pq) [
    | inl e ↦
        rw (e, alloc_id)
          (
            ground (arith, get_elem?-none d.fwd_map (length d.fwd_map)),
            (λ j h. ground (arith, v.free j, get_elem?-some d.fwd_map j)),
            (λ j. get_elem?-append_one d.fwd_map j entry),
          )
    | inr (i, rest, e) ↦
        let (lo, asc) = subst (Ascends 0) e v.ascends in
        rw (e, alloc_id)
          (
            ground (arith, v.free i),
            (λ j h. ground (
              arith,
              v.free j,
              v.free i,
              ap (λ xs. contains xs j) e,
              contains_below i j (i ∷ rest) (omega arith, asc),
              get_elem?-none d.fwd_map i,
              get_elem?-some d.fwd_map j,
            )),
            (λ j.
                ground
                  (arith, v.free i, get_elem?-set d.fwd_map i j entry, get_elem?-none d.fwd_map i)),
          )
  ]

module _ {d : Domain} (v : IsValid d) (i : ℕ) (held : ptr_at d.fwd_map i ≢ 0) where
  abbrev hole : Ptr
  hole = record { ptr = 0; active = false }

  pub get_elem?-free_id :
      (j : ℕ)
      → get_elem? (free_id d i).fwd_map j ≡ (if j == i then some hole else get_elem? d.fwd_map j)
  unfolding free_id
  get_elem?-free_id j = ground (arith, get_elem?-set d.fwd_map i j hole, get_elem?-none d.fwd_map i)

  above_hole :
      (j : ℕ)
      → (d.id_bound == i + 1 ≡ true) ⊎ (d.id_bound == i + 1 ≡ false)
      → (free_id d i).id_bound ≤ j
      → ptr_at (free_id d i).fwd_map j ≡ 0
  unfolding free_id
  above_hole j (inl e) h =
      shrink_bound_above _ d.id_bound j (λ k l. ground (arith, get_elem?-free_id k, v.above k))
        (rw e at h)
  above_hole j (inr e) h = ground (arith, get_elem?-free_id j, v.above j)

  tight_hole :
      (b : ℕ)
      → (d.id_bound == i + 1 ≡ true) ⊎ (d.id_bound == i + 1 ≡ false)
      → (free_id d i).id_bound ≡ suc b
      → ptr_at (free_id d i).fwd_map b ≢ 0
  unfolding free_id
  tight_hole b (inl e) h = shrink_bound_tight _ d.id_bound b (rw e at h)
  tight_hole b (inr e) h = ground (arith, get_elem?-free_id b, v.tight b)

  pub free_id-IsValid : IsValid (free_id d i)
  unfolding free_id
  free_id-IsValid = record {
    ascends = pq_push-Ascends 0 i d.free_pq v.ascends (omega arith) (ground (arith, v.free i));
    free = λ j. ground (arith, get_elem?-free_id j, v.free j, pq_push-contains i j d.free_pq);
    active = λ j q h. ground (arith, get_elem?-free_id j, v.active j q);
    above = λ j h. above_hole j (Bool-cases (d.id_bound == i + 1)) h;
    tight = λ b h. tight_hole b (Bool-cases (d.id_bound == i + 1)) h;
  }
