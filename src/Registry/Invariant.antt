-- ===== src/Registry/Invariant.antt =====
-- src/registry.cpp: the forward and the reverse maps agree, through every registration.
use enoki_jit.Prelude.{
  ℕ, ◌<◌, ◌≡◌, subst, ◌≢◌, inl, inr, List, [], ◌∷◌, ◌++◌, none, some, length, get_elem?, set, ◌==◌,
  if◌then◌else◌, arith, get_elem?-set, get_elem?-append_one, get_elem?-none, get_elem?-lt,
  length-set, length-append, Bool-cases,
}
use enoki_jit.RobinMap.{RobinMap}
use enoki_jit.Registry.Slots.{Domain, ptr_at, alloc_id, free_id}
use enoki_jit.Registry.Slots.Laws
use enoki_jit.Registry.{ReverseKey, DomainKey, new_domain, Registry, new_registry}

-- The pointer stored in slot `i` of domain `k`, or null.
abbrev pub stored : List Domain → ℕ → ℕ → ℕ
stored ds k i = elim (get_elem? ds k) [ none ↦ 0 | some d ↦ ptr_at d.fwd_map i ]

module _ (D : RobinMap DomainKey ℕ) (P : RobinMap ℕ ReverseKey) where
  pub record IsValid (r : Registry D P) : Type 0 where
    pub null : P.find r.rev_map 0 ≡ none
    pub sound :
        (p : ℕ) (rk : ReverseKey)
        → P.find r.rev_map p ≡ some rk
        → stored r.domains rk.domain_id rk.index ≡ p
    pub complete :
        (k i p : ℕ)
        → stored r.domains k i ≡ p
        → p ≢ 0
        → P.find r.rev_map p ≡ some (record { domain_id = k; index = i })
    pub valid : (k : ℕ) (d : Domain) → get_elem? r.domains k ≡ some d → Laws.IsValid d
    pub known : (key : DomainKey) (k : ℕ) → D.find r.domain_ids key ≡ some k → k < length r.domains
    pub distinct :
        (a b : DomainKey) (k : ℕ)
        → D.find r.domain_ids a ≡ some k
        → D.find r.domain_ids b ≡ some k
        → a ≡ b

  pub new_registry-IsValid : IsValid (new_registry D P)
  unfolding new_registry
  new_registry-IsValid = record {
    null = P.find-empty 0;
    sound = λ p rk h. ground (arith, P.find-empty p);
    complete = λ k i p h n. absurd (n (ground arith));
    valid = λ k d h. ground arith;
    known = λ key k h. ground (arith, D.find-empty key);
    distinct = λ a b k h g. ground (arith, D.find-empty a);
  }

  module _ (r : Registry D P) (v : IsValid r) where
    pub ensure_domain_new :
        (key : DomainKey)
        → D.find r.domain_ids key ≡ none
        → IsValid (record r {
          domain_ids = D.put r.domain_ids key (length r.domains);
          domains = r.domains ++ new_domain ∷ [];
        })
    ensure_domain_new key e = record {
      null = v.null;
      sound = λ p rk h. ground (
        arith,
        v.sound p rk,
        get_elem?-append_one r.domains rk.domain_id new_domain,
        get_elem?-none r.domains rk.domain_id,
        v.null,
      );
      complete = λ k i p h n.
          ground (arith, get_elem?-append_one r.domains k new_domain, v.complete k i p);
      valid = λ k d h. elim (Bool-cases (k == length r.domains)) [
        | inl c ↦
            subst Laws.IsValid (ground (arith, get_elem?-append_one r.domains k new_domain))
              Laws.empty-IsValid
        | inr c ↦ v.valid k d (ground (arith, get_elem?-append_one r.domains k new_domain))
      ];
      known = λ q k h. ground (
        arith,
        D.find-put r.domain_ids key q (length r.domains),
        v.known q k,
        length-append r.domains (new_domain ∷ []),
      );
      distinct = λ a b k h g. ground (
        arith,
        D.find-put r.domain_ids key a (length r.domains),
        D.find-put r.domain_ids key b (length r.domains),
        D.beq_iff a key,
        D.beq_iff b key,
        v.known a k,
        v.known b k,
        v.distinct a b k,
      );
    }

    -- Writing pointer `p` to slot `i` of domain `k`, and the domain's new state.
    module _ (k : ℕ) (d : Domain) (here : get_elem? r.domains k ≡ some d) (p : ℕ) where
      pub stored-put :
          (d' : Domain) (i q : ℕ)
          → ((j : ℕ) → ptr_at d'.fwd_map j ≡ (if j == i then q else ptr_at d.fwd_map j))
          → (m j : ℕ)
          → stored (set r.domains k d') m j ≡ (
              if m == k then (if j == i then q else stored r.domains m j) else stored r.domains m j)
      stored-put d' i q writes m j =
          ground (arith, get_elem?-set r.domains k m d', writes j, get_elem?-lt r.domains k d)

      valid_set :
          (d' : Domain)
          → Laws.IsValid d'
          → (m : ℕ) (e : Domain) → get_elem? (set r.domains k d') m ≡ some e
          → Laws.IsValid e
      valid_set d' w m e h = elim (Bool-cases (m == k)) [
        | inl c ↦ subst Laws.IsValid (ground (arith, get_elem?-set r.domains k m d')) w
        | inr c ↦ v.valid m e (ground (arith, get_elem?-set r.domains k m d'))
      ]

      pub put_in-IsValid :
          (i : ℕ) (d' : Domain)
          → alloc_id d p ≡ (i, d')
          → p ≢ 0
          → P.find r.rev_map p ≡ none
          → IsValid (record r {
            domains = set r.domains k d';
            rev_map = P.put r.rev_map p (record { domain_id = k; index = i });
          })
      put_in-IsValid i d' e n fresh =
          let low = Laws.alloc_id_lowest (v.valid k d here) p n in
          let put = stored-put d' i p (λ j. ground (arith, low.2 j)) in
          record {
            null = ground (
              arith,
              P.find-put r.rev_map p 0 (record { domain_id = k; index = i }),
              P.beq_iff 0 p,
              v.null,
            );
            sound = λ q rk h. ground (
              arith,
              put rk.domain_id rk.index,
              P.find-put r.rev_map p q (record { domain_id = k; index = i }),
              P.beq_iff q p,
              v.sound q rk,
              low.0,
            );
            complete = λ m j q h z. ground (
              arith,
              put m j,
              P.find-put r.rev_map p q (record { domain_id = k; index = i }),
              P.beq_iff q p,
              v.complete m j q,
              low.0,
            );
            valid = valid_set d' (
                subst (λ (x : ℕ × Domain). Laws.IsValid x.1) e
                  (Laws.alloc_id-IsValid (v.valid k d here) p n));
            known = λ q m h. rw length-set (v.known q m h);
            distinct = v.distinct;
          }

      pub free_id-IsValid :
          (i : ℕ)
          → ptr_at d.fwd_map i ≡ p
          → p ≢ 0
          → IsValid
              (record r { domains = set r.domains k (free_id d i); rev_map = P.erase r.rev_map p })
      free_id-IsValid i e n =
          let held : ptr_at d.fwd_map i ≢ 0 = rw e n in
          let w = v.valid k d here in
          let put =
            stored-put (free_id d i) i 0 (λ j. ground (arith, Laws.get_elem?-free_id w i held j)) in
          record {
            null = ground (arith, P.find-erase r.rev_map p 0, v.null);
            sound = λ q rk h. ground (
              arith,
              put rk.domain_id rk.index,
              P.find-erase r.rev_map p q,
              P.beq_iff q p,
              v.sound q rk,
              v.complete k i p,
            );
            complete = λ m j q h z. ground (
              arith,
              put m j,
              P.find-erase r.rev_map p q,
              P.beq_iff q p,
              v.complete m j q,
              v.complete k i p,
            );
            valid = valid_set (free_id d i) (Laws.free_id-IsValid w i held);
            known = λ q m h. rw length-set (v.known q m h);
            distinct = v.distinct;
          }
