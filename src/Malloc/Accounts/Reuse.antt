-- ===== src/Malloc/Accounts/Reuse.antt =====
-- src/malloc.cpp: `jitc_malloc` after `jitc_free` hands out the same block again.
use enoki_jit.Prelude.{
  ℕ, ◌^◌, ◌≤◌, ◌<◌, ◌≡◌, ◌≢◌, refl, ◌∙◌, sym, ap, true, ◌==◌, ==_self, ==_ne, ==→eq, if_true,
  if_false, if◌then◌else◌, subst, none, some, arith, Bool-cases, inl, inr,
}
use enoki_jit.Prelude.Result.{ok}
use enoki_jit.Types.{AllocType}
use enoki_jit.Malloc.Info.{
  alloc_type_code, is_host, block_size, alloc_info_encode, alloc_info_decode,
  alloc_info_decode-encode,
}
use enoki_jit.Malloc.Round.Block.{block_size-Holds}
use enoki_jit.Malloc.System.{System, Lawful}
use enoki_jit.Malloc.Tables.{
  Counters, FreeMap, UsedMap, write_counter, used_find, used_emplace, used_erase, free_push,
  free_pop,
}
use enoki_jit.Malloc.Tables.Weights.{weigh_used}
use enoki_jit.Malloc.State.{Setup, State}
use enoki_jit.Malloc.Cache.{add_size, sub_size}
use enoki_jit.Malloc.Migrate.{same_type}
use enoki_jit.Malloc.Alloc.{target, count_used, choose, allocate, jitc_malloc, retire, jitc_free}
use enoki_jit.Malloc.Accounts.{at, IsValid}
use enoki_jit.Malloc.Accounts.Spare.{same_type_eq, number_le}
use enoki_jit.Malloc.Accounts.Alloc.{used_find-emplace}
use enoki_jit.Malloc.Accounts.Free.{free_pop-free_push, used_find-erase, jitc_free-run, taken}

cancel : (n size : ℕ) → n < 2 ^ 64 → add_size (sub_size n size) size ≡ n
unfolding add_size sub_size
cancel n size h = omega arith

-- Taking a size off a counter and adding it again.
restored :
    (c : Counters) (type t : AllocType) (size : ℕ)
    → c type < 2 ^ 64
    → (let less = write_counter c type (sub_size (c type) size) in
        write_counter less type (add_size (less type) size) t)
      ≡ c t
unfolding add_size sub_size
restored c type t size h = elim (Bool-cases (same_type t type)) [
  | inl same ↦
      subst
        (λ a.
          write_counter (write_counter c type (sub_size (c type) size)) type
            (add_size (write_counter c type (sub_size (c type) size) type) size) a
          ≡ c a)
        (sym (same_type_eq t type same))
        (rw (==_self (alloc_type_code type)) (cancel (c type) size h))
  | inr other ↦ ground arith
]

module _ (S : System) (L : Lawful S) (setup : Setup) where
  -- A request that the cache serves.
  reused :
      (type : AllocType) (n info p : ℕ) (m : FreeMap) (s : State S)
      → is_host type ≡ true
      → n ≢ 0
      → p ≢ 0
      → alloc_info_encode (block_size setup.vector_width type n) type 0 ≡ info
      → free_pop info s.alloc_free ≡ some (p, m)
      → jitc_malloc S setup type n s ≡ (
        ok p,
        count_used S type
            (block_size setup.vector_width type n)
            info
            p
            (record s { alloc_free = m }),
      )
  unfolding jitc_malloc target allocate choose
  reused type n info p m s h a b i e = ground (arith, ==_ne n 0 a, ==_ne p 0 b)

  retire_host :
      (type : AllocType) (info p : ℕ) (s : State S)
      → is_host type ≡ true
      → retire S type info p s ≡ record s { alloc_free = free_push info p s.alloc_free }
  unfolding retire is_host
  retire_host AllocType.host info p s h = refl
  retire_host AllocType.host_async info p s h = refl
  retire_host AllocType.host_pinned info p s h = absurd cc
  retire_host AllocType.device info p s h = absurd cc

  -- The state `s'` is `s` but for the order of the entries.
  pub record Restored (s s' : State S) : Type 0 where
    pub used : (q : ℕ) → used_find q s'.alloc_used ≡ used_find q s.alloc_used
    pub usage : (t : AllocType) → s'.alloc_usage t ≡ s.alloc_usage t
    pub allocated : (t : AllocType) → s'.alloc_allocated t ≡ s.alloc_allocated t
    pub os : s'.os ≡ s.os

  emplace-erase :
      (p info : ℕ) (u : UsedMap)
      → used_find p u ≡ some info
      → weigh_used (at p) u ≤ 1
      → (q : ℕ) → used_find q (used_emplace p info (used_erase p u)) ≡ used_find q u
  emplace-erase p info u e h q =
      let gone : (r : ℕ) → used_find r (used_erase p u) ≡ (if r == p then none else used_find r u) =
        used_find-erase p info u e h in
      let empty : used_find p (used_erase p u) ≡ none = gone p ∙ if_true _ _ (==_self p) in
      used_find-emplace p info (used_erase p u) empty q ∙ elim (Bool-cases (q == p)) [
        | inl same ↦ if_true _ _ same ∙ sym e ∙ ap (λ r. used_find r u) (sym (==→eq q p same))
        | inr other ↦ if_false _ _ other ∙ gone q ∙ if_false _ _ other
      ]

  -- The states after the release and after the new request.
  abbrev released : AllocType → ℕ → ℕ → State S → State S
  released type info p s = record (taken S L type info p s) {
    alloc_free = free_push info p s.alloc_free;
  }

  both :
      (type : AllocType) (size info p : ℕ) (m : FreeMap) (s : State S)
      → IsValid S L s
      → (alloc_info_decode info).0 ≡ size
      → used_find p s.alloc_used ≡ some info
      → Restored s
          (count_used S type size info p (record (released type info p s) { alloc_free = m }))
  unfolding count_used
  both type size info p m s v d e = record {
    used =
        emplace-erase p info s.alloc_used e
          (omega (arith, v.owned p, number_le S L (L.in_use s.os p)));
    usage = λ t.
        subst
          (λ n.
            write_counter
              (write_counter s.alloc_usage type
                (sub_size (s.alloc_usage type) (alloc_info_decode info).0))
              type
              (add_size
                (write_counter s.alloc_usage type
                  (sub_size (s.alloc_usage type) (alloc_info_decode info).0) type)
                n)
              t
            ≡ s.alloc_usage t)
          d
          (restored s.alloc_usage type t (alloc_info_decode info).0 (omega (arith, v.usage type)));
    allocated = λ t. refl;
    os = refl;
  }

  -- A host block that is given back is handed out to the next request of its size, with the same
  -- address, and that restores the blocks in use and the accounts, without a call of the system.
  pub jitc_malloc-jitc_free :
      (type : AllocType) (n p : ℕ) (s : State S)
      → IsValid S L s
      → is_host type ≡ true
      → 1 ≤ n
      → n ≤ 2 ^ 46
      → setup.vector_width ≤ 2 ^ 43
      → p ≢ 0
      → used_find p s.alloc_used
        ≡ some (alloc_info_encode (block_size setup.vector_width type n) type 0)
      → (s1 : State S) × (jitc_free S p s ≡ (ok tt, s1))
        × ((s2 : State S) × (jitc_malloc S setup type n s1 ≡ (ok p, s2)) × Restored s s2)
  jitc_malloc-jitc_free type n p s v h a b c z e =
      let size = block_size setup.vector_width type n in
      let info = alloc_info_encode size type 0 in
      let (k, pow, lo, hi) = block_size-Holds setup.vector_width n type a b c in
      let d : alloc_info_decode info ≡ (size, some type, 0) =
        alloc_info_decode-encode size type 0 hi (omega arith) in
      let (m, popped) = free_pop-free_push info p s.alloc_free in
      (
        released type info p s,
        jitc_free-run S L type info p s z e (ap (λ x. x.1) d)
            ∙ ap (λ s1. (ok tt, s1)) (retire_host type info p (taken S L type info p s) h),
        (
          count_used S type size info p (record (released type info p s) { alloc_free = m }),
          reused type n info p m (released type info p s) h (λ n0. omega arith) z refl popped,
          both type size info p m s v (ap (λ x. x.0) d) e,
        ),
      )
