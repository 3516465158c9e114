-- ===== src/Registry/Lookup.antt =====
-- src/registry.cpp: registration and removal as a whole, and what lookups return afterwards.
use enoki_jit.Prelude.{
  ℕ, ◌+◌, ◌-◌, ◌≤◌, ◌<◌, ◌≡◌, refl, subst, ◌≢◌, inl, inr, List, none, some, length, get_elem?, set,
  arith, get_elem?-set, get_elem?-append_one, get_elem?-lt, get_elem?-some, Option-cases,
}
use enoki_jit.Prelude.Result.{ok, err, raise}
use enoki_jit.RobinMap.{RobinMap}
use enoki_jit.Registry.Slots.{Domain, ptr_at, alloc_id, free_id}
use enoki_jit.Registry.Slots.Laws
use enoki_jit.Registry.Invariant.{
  IsValid, stored, ensure_domain_new, put_in-IsValid, free_id-IsValid,
}
use enoki_jit.Registry.{
  ReverseKey, DomainKey, new_domain, Registry, ensure_domain, put_in, registry_put, registry_remove,
  registry_id, registry_id_bound, registry_ptr, registry_peek,
}

stored-some :
    (ds : List Domain) (k i p : ℕ)
    → stored ds k i ≡ p
    → p ≢ 0
    → (d : Domain) × (get_elem? ds k ≡ some d) × (ptr_at d.fwd_map i ≡ p)
stored-some ds k i p s n = elim (Option-cases (get_elem? ds k)) [
  | inl e ↦ absurd (ground arith)
  | inr (d, e) ↦ (d, e, ground arith)
]

module _ (D : RobinMap DomainKey ℕ) (P : RobinMap ℕ ReverseKey) where
  -- The registry has a domain for the key, at `k`.
  record Has (r : Registry D P) (key : DomainKey) (k : ℕ) (r' : Registry D P) : Type 0 where
    keyed : D.find r'.domain_ids key ≡ some k
    dom : Domain
    at : get_elem? r'.domains k ≡ some dom
    same : r'.rev_map ≡ r.rev_map
    kept : IsValid D P r'

  module _ (r : Registry D P) (v : IsValid D P r) (key : DomainKey) where
    ensure_domain-Has : let (k, r') = ensure_domain D P r key in Has r key k r'
    unfolding ensure_domain
    ensure_domain-Has = elim (Option-cases (D.find r.domain_ids key)) [
      | inr (k, e) ↦
          let (d, at) = get_elem?-some r.domains k (v.known key k e) in
          rw (e, ensure_domain) (record { keyed = e; dom = d; at = at; same = refl; kept = v })
      | inl e ↦
          rw (e, ensure_domain)
            (record {
              keyed =
                  ground
                    (arith, D.find-put r.domain_ids key key (length r.domains), D.beq_iff key key);
              dom = new_domain;
              at = ground (arith, get_elem?-append_one r.domains (length r.domains) new_domain);
              same = refl;
              kept = ensure_domain_new D P r v key e;
            })
    ]

  -- What a registration of `p` under `key` gives: a positive ID that both lookups know, and no
  -- change for any other pointer.
  pub record Registers (r : Registry D P) (key : DomainKey) (p id : ℕ) (r' : Registry D P)
      : Type 0 where
    pub positive : 0 < id
    pub id_of : registry_id D P r' p ≡ ok id
    pub ptr_of : registry_ptr D P r' key id ≡ ok p
    pub others : (q : ℕ) → q ≢ p → registry_id D P r' q ≡ registry_id D P r q
    pub is_valid : IsValid D P r'

  module _ (r : Registry D P) (v : IsValid D P r) (key : DomainKey) (p : ℕ) (n : p ≢ 0) where
    put_in-Registers :
        (r1 : Registry D P) (k : ℕ)
        → Has r key k r1
        → P.find r.rev_map p ≡ none
        → (id : ℕ) × (r' : Registry D P) × (put_in D P r1 k p ≡ ok (id, r'))
          × Registers r key p id r'
    unfolding put_in registry_id registry_ptr
    put_in-Registers r1 k h fresh =
        let i = (alloc_id h.dom p).0 in
        let d' = (alloc_id h.dom p).1 in
        let w = h.kept.valid k h.dom h.at in
        let low = Laws.alloc_id_lowest w p n in
        let act = (Laws.alloc_id-IsValid w p n).active i in
        let rk : ReverseKey = record { domain_id = k; index = i } in
        let r' : Registry D P = record r1 {
          domains = set r1.domains k d';
          rev_map = P.put r1.rev_map p rk;
        } in
        (
          i + 1,
          r',
          rw (h.at, put_in),
          record {
            positive = omega arith;
            id_of = ground (arith, P.find-put r1.rev_map p p rk, P.beq_iff p p);
            ptr_of = ground (
              arith,
              h.keyed,
              get_elem?-set r1.domains k k d',
              get_elem?-lt r1.domains k h.dom,
              low.2 i,
            );
            others = λ q z. ground (arith, P.find-put r1.rev_map p q rk, P.beq_iff q p, h.same);
            is_valid = put_in-IsValid D P r1 h.kept k h.dom h.at p i d' refl n (rw h.same fresh);
          },
        )

    -- In a valid registry, registering a pointer that is not null and not registered succeeds. The ID is positive, both lookups
    -- know the pair, no other pointer's ID changes, and the registry stays valid.
    pub registry_put-Registers :
        P.find r.rev_map p ≡ none
        → (id : ℕ) × (r' : Registry D P) × (registry_put D P r key p ≡ ok (id, r'))
          × Registers r key p id r'
    unfolding registry_put
    registry_put-Registers fresh =
        let (id, r', e, w) = put_in-Registers _ _ (ensure_domain-Has r v key) fresh in
        (id, r', rw (fresh, registry_put) e, w)

  -- A registration that returns keeps the registry valid.
  pub registry_put-IsValid :
      (r r' : Registry D P) (key : DomainKey) (p id : ℕ)
      → IsValid D P r
      → p ≢ 0
      → registry_put D P r key p ≡ ok (id, r')
      → IsValid D P r'
  unfolding registry_put
  registry_put-IsValid r r' key p id v n h = elim (Option-cases (P.find r.rev_map p)) [
    | inr (rk, e) ↦ absurd (ground arith)
    | inl e ↦
        let (i, q, eq, w) = registry_put-Registers r v key p n e in
        subst (IsValid D P) (ground arith) w.is_valid
  ]

  module _ (r : Registry D P) (v : IsValid D P r) (p : ℕ) where
    pub record Removes (r' : Registry D P) : Type 0 where
      pub gone : p ≢ 0 → registry_id D P r' p ≡ err raise
      pub others : (q : ℕ) → q ≢ p → registry_id D P r' q ≡ registry_id D P r q
      pub is_valid : IsValid D P r'

    -- In a valid registry, removing a pointer never meets a corrupt slot. Afterwards the pointer is not registered, no
    -- other pointer's ID has changed, and the registry stays valid.
    pub registry_remove-Removes :
        (r' : Registry D P) × (registry_remove D P r p ≡ ok r') × Removes r'
    unfolding registry_remove registry_id
    registry_remove-Removes = elim (Option-cases (P.find r.rev_map p)) [
      | inl e ↦ (
        r,
        rw (e, registry_remove),
        record { gone = λ n. ground arith; others = λ q n. refl; is_valid = v },
      )
      | inr (rk, e) ↦
          let s = v.sound p rk e in
          let n : p ≢ 0 = ground (arith, v.null) in
          let (d, at, here) = stored-some r.domains rk.domain_id rk.index p s n in
          (
            record r {
              domains = set r.domains rk.domain_id (free_id d rk.index);
              rev_map = P.erase r.rev_map p;
            },
            rw (e, registry_remove, at) (ground arith),
            record {
              gone = λ z. ground (arith, P.find-erase r.rev_map p p, P.beq_iff p p);
              others = λ q z. ground (arith, P.find-erase r.rev_map p q, P.beq_iff q p);
              is_valid = free_id-IsValid D P r v rk.domain_id d at p rk.index here n;
            },
          )
    ]

  module _ (r : Registry D P) (v : IsValid D P r) (key : DomainKey) where
    live_ptr :
        {d : Domain} {k : ℕ}
        → Laws.IsValid d
        → (n : ℕ) → n ≢ 0
        → ptr_at d.fwd_map (n - 1) ≢ 0
        → get_elem? r.domains k ≡ some d
        → D.find r.domain_ids key ≡ some k
        → registry_ptr D P r key n ≡ ok (ptr_at d.fwd_map (n - 1))
    unfolding registry_ptr
    live_ptr {d} w n z live at e = elim (Option-cases (get_elem? d.fwd_map (n - 1))) [
      | inl g ↦ absurd (ground arith)
      | inr (q, g) ↦ ground (arith, w.active (n - 1) q)
    ]

    -- In a valid registry, the ID of a pointer registered under `key` is at most the key's bound, and a bound that is not
    -- 0 is itself the ID of a registered pointer, which `registry_peek` returns.
    pub registry_id_bound_tight :
        (n : ℕ)
        → registry_id_bound D P r key ≡ ok n
        → ((id p : ℕ) → registry_ptr D P r key id ≡ ok p → p ≢ 0 → id ≤ n)
          × (n ≢ 0
              → (p : ℕ) × (p ≢ 0)
                × (registry_ptr D P r key n ≡ ok p)
                × (registry_peek D P r key ≡ ok p)
                × (registry_id D P r p ≡ ok n))
    unfolding registry_id_bound registry_ptr registry_peek registry_id
    registry_id_bound_tight n h = elim (Option-cases (D.find r.domain_ids key)) [
      | inl e ↦ ((λ id p g z. absurd (ground arith)), (λ z. absurd (ground arith)))
      | inr (k, e) ↦
          let (d, at) = get_elem?-some r.domains k (v.known key k e) in
          let w = v.valid k d at in
          let b : d.id_bound ≡ n = ground arith in
          (
            (λ id p g z. ground (arith, w.above (id - 1), at)),
            (λ z.
                let live : ptr_at d.fwd_map (n - 1) ≢ 0 = w.tight (n - 1) (omega arith) in
                (
                  ptr_at d.fwd_map (n - 1),
                  live,
                  live_ptr w n z live at e,
                  ground (arith, at),
                  ground (arith, v.complete k (n - 1) (ptr_at d.fwd_map (n - 1)), at),
                )),
          )
    ]
