-- ===== src/Malloc/Accounts/Requests.antt =====
-- What `jitc_malloc` of src/malloc.cpp gets from the system, over its two attempts.
use enoki_jit.Prelude.{
  ℕ, ◌+◌, ◌%◌, ◌^◌, ◌≡◌, ◌≢◌, ◌⊎◌, refl, ◌∙◌, sym, ap, Bool, true, false, ◌==◌, if_true, if_both,
  if_false, subst, Option, none, some, ltb, ==→ne, ==→eq, arith, Bool-cases, inl, inr,
}
use enoki_jit.Prelude.Result.{Error, Result, ok, err, raise}
use enoki_jit.Types.{AllocType}
use enoki_jit.Malloc.System.{System, Lawful, Gives, Grants, map_failed}
use enoki_jit.Malloc.Tables.Weights.{weigh_used, weigh_keys, weigh_pending}
use enoki_jit.Malloc.State.{Setup, State}
use enoki_jit.Malloc.Cache.{aligned_malloc, hugepage_size, request, jitc_flush_malloc_cache}
use enoki_jit.Malloc.Alloc.{second_attempt, after_first, attempt_twice}
use enoki_jit.Malloc.Accounts.{bytes, at, unread, number, total, Keeps, IsValid}
use enoki_jit.Malloc.Accounts.Flush.{jitc_flush_malloc_cache-Flushed}

module _ (S : System) (L : Lawful S) where
  -- What a request changes: a refusal leaves all addresses in use as they were, an address that is
  -- granted comes on top of them; `mmap`'s failure is told apart from an address.
  Answered : (ℕ → ℕ) → Option ℕ × S.Os → Type 0
  Answered c (none, os) = Keeps S L c os
  Answered c (some p, os) = (p ≡ map_failed) ⊎ ((p ≢ 0) × Keeps S L (λ q. c q + at q 0 p) os)

  granted :
      (c : ℕ → ℕ) (p : ℕ) (a b : S.Os)
      → Grants L.in_use a p b
      → Keeps S L c a
      → Keeps S L (λ q. c q + at q 0 p) b
  unfolding at
  granted c p a b (n, u, g) k q = ground (arith, k q, g q, k p)

  given :
      (c : ℕ → ℕ) (a : S.Os) (r : Option ℕ × S.Os)
      → Gives L.in_use a r
      → Keeps S L c a
      → Answered c r
  unfolding Answered
  given c a (none, b) g k = λ q. ground (arith, k q, g q)
  given c a (some p, b) g k = inr (g.0, granted c p a b g k)

  mapped :
      (c : ℕ → ℕ) (huge : Bool) (size : ℕ) (a : S.Os)
      → Keeps S L c a
      → Answered c (some (S.mmap huge size a).0, (S.mmap huge size a).1)
  unfolding Answered
  mapped c huge size a k = elim (Bool-cases ((S.mmap huge size a).0 == map_failed)) [
    | inl e ↦ inl (==→eq _ _ e)
    | inr e ↦ let g = L.mmap_grants huge size a (==→ne _ _ e) in inr (g.0, granted c _ a _ g k)
  ]

  -- The second request, for pages of the usual size, which runs after the first has failed.
  small_pages :
      (c : ℕ → ℕ) (size : ℕ) (a : S.Os)
      → Keeps S L c a
      → (S.mmap true size a).0 == map_failed ≡ true
      → Answered c (
        some (S.mmap false size (S.mmap true size a).1).0,
        (S.mmap false size (S.mmap true size a).1).1,
      )
  small_pages c size a k e =
      mapped c false size (S.mmap true size a).1
        (λ q. omega (arith, k q, ap number (L.mmap_fails true size a (==→eq _ _ e) q)))

  aligned_malloc-Answered :
      (c : ℕ → ℕ) (size : ℕ) (a : S.Os) → Keeps S L c a → Answered c (aligned_malloc S size a)
  unfolding aligned_malloc Answered
  aligned_malloc-Answered c size a k =
      if_both (Answered c) (ltb size hugepage_size) _ _
        (given c a _ (L.posix_memalign_gives size a) k)
        (elim (Bool-cases ((S.mmap true size a).0 == map_failed)) [
          | inl e ↦ subst (Answered c) (sym (if_true _ _ e)) (small_pages c size a k e)
          | inr e ↦ subst (Answered c) (sym (if_false _ _ e)) (mapped c true size a k)
        ])

  request-Answered :
      (c : ℕ → ℕ) (type : AllocType) (pool : Bool) (size : ℕ) (a : S.Os)
      → Keeps S L c a
      → Answered c (request S type pool size a)
  unfolding request
  request-Answered c AllocType.host pool size a k = aligned_malloc-Answered c size a k
  request-Answered c AllocType.host_async pool size a k = aligned_malloc-Answered c size a k
  request-Answered c AllocType.host_pinned pool size a k =
      given c a _ (L.cu_mem_alloc_host_gives size a) k
  request-Answered c AllocType.device pool size a k =
      if_both (Answered c) pool _ _ (given c a _ (L.cu_mem_alloc_async_gives size a) k)
        (given c a _ (L.cu_mem_alloc_gives size a) k)

  with_os :
      (s : State S) (os : S.Os)
      → IsValid S L s
      → Keeps S L (λ q. total S (at q) s) os
      → IsValid S L (record s { os = os })
  with_os s os v k = record {
    usage = v.usage;
    allocated = v.allocated;
    owned = k;
    decodes = v.decodes;
  }

  -- How the two attempts may end, in a valid state that has the same blocks in use.
  pub record Obtained (s : State S) (p : ℕ) (s1 : State S) : Type 0 where
    pub usage : (t : AllocType) → s1.alloc_usage t ≡ weigh_used (bytes t) s1.alloc_used % 2 ^ 64
    pub allocated : (t : AllocType) → s1.alloc_allocated t ≡ total S (bytes t) s1 % 2 ^ 64
    pub owned : Keeps S L (λ q. total S (at q) s1 + at q 0 p) s1.os
    pub decodes :
        weigh_used unread s1.alloc_used
          + weigh_keys unread s1.alloc_free
          + weigh_pending unread s1.pending
        ≡ 0
    pub used : s1.alloc_used ≡ s.alloc_used
    pub proper : p ≢ 0

  unfoldable pub Attempted : State S → Result (Option ℕ) × State S → Type 0
  Attempted s (err why, s1) = IsValid S L s1
  Attempted s (ok none, s1) = IsValid S L s1
  Attempted s (ok (some p), s1) = (p ≡ map_failed) ⊎ Obtained s p s1

  answer :
      (s : State S) (r : Option ℕ × S.Os)
      → IsValid S L s
      → Answered (λ q. total S (at q) s) r
      → Attempted s (ok r.0, record s { os = r.1 })
  unfolding Answered Attempted
  answer s (none, os) v a = with_os s os v a
  answer s (some p, os) v (inl failed) = inl failed
  answer s (some p, os) v (inr (n, k)) = inr (record {
    usage = v.usage;
    allocated = v.allocated;
    owned = k;
    decodes = v.decodes;
    used = refl;
    proper = n;
  })

  refused :
      (s : State S) (os : S.Os)
      → IsValid S L s
      → Answered (λ q. total S (at q) s) (none, os)
      → IsValid S L (record s { os = os })
  unfolding Answered
  refused s os v a = with_os s os v a

  err_Attempted : (s s1 : State S) (why : Error) → IsValid S L s1 → Attempted s (err why, s1)
  unfolding Attempted
  err_Attempted s s1 why v = v

  from_same :
      (s s1 : State S) (r : Result (Option ℕ) × State S)
      → s1.alloc_used ≡ s.alloc_used
      → Attempted s1 r
      → Attempted s r
  unfolding Attempted
  from_same s s1 (err why, s2) e a = a
  from_same s s1 (ok none, s2) e a = a
  from_same s s1 (ok (some p), s2) e (inl failed) = inl failed
  from_same s s1 (ok (some p), s2) e (inr o) = inr (record {
    usage = o.usage;
    allocated = o.allocated;
    owned = o.owned;
    decodes = o.decodes;
    used = o.used ∙ e;
    proper = o.proper;
  })

  if_frozen :
      (setup : Setup) (s : State S)
      → s.freezing ≡ true
      → jitc_flush_malloc_cache S setup true s ≡ (err raise, s)
  unfolding jitc_flush_malloc_cache
  if_frozen setup s e = if_true _ _ e

  module _ (setup : Setup) (type : AllocType) (pool : Bool) (size : ℕ) where
    second_attempt-Attempted :
        (s s1 : State S) (r : Result (Unit {0}))
        → IsValid S L s1
        → s1.alloc_used ≡ s.alloc_used
        → Attempted s (second_attempt S setup type pool size (r, s1))
    unfolding second_attempt
    second_attempt-Attempted s s1 (err why) v e = err_Attempted s s1 why v
    second_attempt-Attempted s s1 (ok done) v e =
        from_same s s1 _ e (answer s1 _ v (request-Answered _ type pool size s1.os v.owned))

    after_first-Attempted :
        (s : State S) (r : Option ℕ × S.Os)
        → IsValid S L s
        → Answered (λ q. total S (at q) s) r
        → Attempted s (after_first S setup type pool size s r)
    unfolding after_first
    after_first-Attempted s (some p, os) v a = answer s (some p, os) v a
    after_first-Attempted s (none, os) v a =
        let s1 : State S = record s { os = os } in
        let v1 : IsValid S L s1 = refused s os v a in
        elim (Bool-cases s.freezing) [
          | inl e ↦
              subst (λ r. Attempted s (second_attempt S setup type pool size r))
                (sym (if_frozen setup s1 e)) (second_attempt-Attempted s s1 (err raise) v1 refl)
          | inr e ↦
              let (s2, r, f) = jitc_flush_malloc_cache-Flushed S L setup true s1 v1 e in
              subst (λ r. Attempted s (second_attempt S setup type pool size r)) (sym r)
                (second_attempt-Attempted s s2 (ok tt) f.valid f.used)
        ]

    pub attempt_twice-Attempted :
        (s : State S) → IsValid S L s → Attempted s (attempt_twice S setup type pool size s)
    unfolding attempt_twice
    attempt_twice-Attempted s v =
        after_first-Attempted s _ v (request-Answered _ type pool size s.os v.owned)
