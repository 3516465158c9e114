-- ===== src/Malloc/Accounts/Alloc.antt =====
-- `jitc_malloc` of src/malloc.cpp on every branch.
use enoki_jit.Prelude.{
  ℕ, ◌+◌, ◌%◌, ◌^◌, ◌≤◌, ◌<◌, ◌≡◌, ◌≢◌, refl, ◌∙◌, sym, ap, Bool, ◌==◌, ==_ne, if_both, if_false,
  if◌then◌else◌, subst, Option, none, some, arith, inl, inr,
}
use enoki_jit.Prelude.Result.{Error, Result, ok, err, raise}
use enoki_jit.Types.{AllocType}
use enoki_jit.Malloc.Info.{is_host, block_size, alloc_info_encode}
use enoki_jit.Malloc.Round.Block.{Holds, block_size-Holds}
use enoki_jit.Malloc.System.{System, Lawful, map_failed}
use enoki_jit.Malloc.Tables.{FreeMap, UsedMap, used_find, used_emplace, free_pop}
use enoki_jit.Malloc.State.{CudaThread, Setup, State, FitsDevice, FitsThread}
use enoki_jit.Malloc.Cache.{add_size}
use enoki_jit.Malloc.Alloc.{
  thread_state_of_cuda, target, count_new, count_used, conclude, allocate_new, choose, allocate,
  jitc_malloc,
}
use enoki_jit.Malloc.Accounts.{bytes, at, total, IsValid}
use enoki_jit.Malloc.Accounts.Spare.{
  Spare, Spare-unused, count_used-IsValid, free_pop-Spare, write_counter_at, bytes_same,
  bytes_other, unread_encoded,
}
use enoki_jit.Malloc.Accounts.Requests.{Obtained, Attempted, attempt_twice-Attempted}

pub used_find-emplace :
    (p info : ℕ) (u : UsedMap)
    → used_find p u ≡ none
    → (q : ℕ) → used_find q (used_emplace p info u) ≡ (if q == p then some info else used_find q u)
unfolding used_emplace used_find
used_find-emplace p info u h q = ground arith

module _ (S : System) (L : Lawful S) where
  -- A block `p` of `size` bytes and `type` on a device below 256 was added to those of `s`.
  pub record Allocated (type : AllocType) (size : ℕ) (s : State S) (p : ℕ) (s' : State S)
      : Type 0 where
    pub valid : IsValid S L s'
    pub proper : p ≢ 0
    pub unused : used_find p s.alloc_used ≡ none
    pub device : ℕ
    pub used :
        (q : ℕ)
        → used_find q s'.alloc_used
          ≡ (if q == p then some (alloc_info_encode size type device) else used_find q s.alloc_used)

  -- How a request for a block may end: with `MAP_FAILED`, with a new block, with an exception in a
  -- valid state, or out of memory, with the size charged to a valid state.
  pub data Served (type : AllocType) (size : ℕ) (s : State S) : Result ℕ × State S → Type 0 where
    overlooked : (s' : State S) → Served type size s (ok map_failed, s')
    served : (p : ℕ) (s' : State S) → Allocated type size s p s' → Served type size s (ok p, s')
    stopped : (why : Error) (s' : State S) → IsValid S L s' → Served type size s (err why, s')
    charged :
        (s' : State S) → IsValid S L s' → Served type size s (err raise, count_new S type size s')

  not_null : (p info : ℕ) (s : State S) → Spare S L p info s → p ≢ 0
  unfolding at
  not_null p info s v = λ e. ground (arith, v.owned 0, L.null_unused s.os)

  module _ (type : AllocType) (size device : ℕ) (h : size < 2 ^ 48) (d : device < 256) where
    -- The block is counted as used, in the state where it has been obtained.
    Spare-Allocated :
        (p : ℕ) (s s1 : State S)
        → p ≢ 0
        → s1.alloc_used ≡ s.alloc_used
        → Spare S L p (alloc_info_encode size type device) s1
        → Allocated type size s p (count_used S type size (alloc_info_encode size type device) p s1)
    unfolding count_used
    Spare-Allocated p s s1 n e v = record {
      valid = count_used-IsValid S L type size device p s1 h d v;
      proper = n;
      unused = subst (λ u. used_find p u ≡ none) e (Spare-unused S L p _ s1 v);
      device = device;
      used = λ q.
          used_find-emplace p _ s1.alloc_used (Spare-unused S L p _ s1 v) q
          ∙ ap (λ u. if q == p then some (alloc_info_encode size type device) else used_find q u) e;
    }

    count_new-Spare :
        (p : ℕ) (s s1 : State S)
        → Obtained S L s p s1
        → Spare S L p (alloc_info_encode size type device) (count_new S type size s1)
    unfolding count_new add_size at
    count_new-Spare p s s1 o = record {
      usage = o.usage;
      allocated =
          write_counter_at s1.alloc_allocated type _
            (λ t n.
              n ≡ (total S (bytes t) s1 + bytes t (alloc_info_encode size type device) p) % 2 ^ 64)
            (omega (arith, o.allocated type, bytes_same type size device p h d))
            (λ t e. omega (arith, o.allocated t, bytes_other t type size device p e h d));
      owned = o.owned;
      decodes = o.decodes;
      known = unread_encoded type size device 0 h d;
    }

    kept :
        (s s1 : State S)
        → s1.alloc_used ≡ s.alloc_used
        → (count_new S type size s1).alloc_used ≡ s.alloc_used
    unfolding count_new
    kept s s1 e = e

    map_failed-Served :
        (s : State S) (p : ℕ) (s1 : State S) → p ≡ map_failed → Served type size s (ok p, s1)
    map_failed-Served s p s1 e = subst (λ q. Served type size s (ok q, s1)) (sym e) (overlooked s1)

    conclude-Served :
        (s : State S) (r : Result (Option ℕ) × State S)
        → Attempted S L s r
        → Served type size s (conclude S type size (alloc_info_encode size type device) r)
    unfolding conclude Attempted
    conclude-Served s (err why, s1) a = stopped why s1 a
    conclude-Served s (ok none, s1) a = charged s1 a
    conclude-Served s (ok (some p), s1) (inl failed) = map_failed-Served s p _ failed
    conclude-Served s (ok (some p), s1) (inr o) = served p _ (
        Spare-Allocated p s (count_new S type size s1) o.proper (kept s s1 o.used)
          (count_new-Spare p s s1 o))

    module _ (setup : Setup) where
      allocate_new-Served :
          (pool : Bool) (s : State S)
          → IsValid S L s
          → Served type size s
              (allocate_new S setup type pool size (alloc_info_encode size type device) s)
      unfolding allocate_new
      allocate_new-Served pool s v =
          conclude-Served s _ (attempt_twice-Attempted S L setup type pool size s v)

      choose-Served :
          (pool : Bool) (s : State S) (found : Option (ℕ × FreeMap))
          → IsValid S L s
          → free_pop (alloc_info_encode size type device) s.alloc_free ≡ found
          → Served type size s
              (choose S setup type pool size (alloc_info_encode size type device) s found)
      unfolding choose
      choose-Served pool s none v e = allocate_new-Served pool s v
      choose-Served pool s (some (p, m)) v e =
          let spare = free_pop-Spare S L p _ m s v e (unread_encoded type size device 0 h d) in
          subst (Served type size s) (sym (if_false _ _ (==_ne p 0 (not_null p _ _ spare)))) (
            served p _
              (Spare-Allocated p s (record s { alloc_free = m }) (not_null p _ _ spare) refl spare))

  record Ready (s : State S) (r : Result CudaThread) (s1 : State S) : Type 0 where
    fits : FitsDevice r
    valid : IsValid S L s1
    used : s1.alloc_used ≡ s.alloc_used

  AllReady : State S → Result CudaThread × State S → Type 0
  AllReady s (r, s1) = Ready s r s1

  thread-AllReady :
      (setup : Setup) (s : State S) (t : Option CudaThread) (i : Result CudaThread)
      → IsValid S L s
      → FitsThread t
      → FitsDevice i
      → s.thread_state_cuda ≡ t
      → setup.init_thread_state ≡ i
      → AllReady s (thread_state_of_cuda S setup s)
  unfolding thread_state_of_cuda AllReady
  thread-AllReady setup s (some ts) i v f g e k =
      let run : thread_state_of_cuda S setup s ≡ (ok ts, s) = ground arith in
      subst (AllReady s) (sym run) (record { fits = f; valid = v; used = refl })
  thread-AllReady setup s none (err why) v f g e k =
      let run : thread_state_of_cuda S setup s ≡ (err why, s) = ground arith in
      subst (AllReady s) (sym run) (record { fits = tt; valid = v; used = refl })
  thread-AllReady setup s none (ok ts) v f g e k =
      let s1 : State S = record s { thread_state_cuda = some ts } in
      let v1 : IsValid S L s1 = record {
        usage = v.usage;
        allocated = v.allocated;
        owned = v.owned;
        decodes = v.decodes;
      } in
      let run : thread_state_of_cuda S setup s ≡ (ok ts, s1) = ground arith in
      subst (AllReady s) (sym run) (record { fits = g; valid = v1; used = refl })

  target-AllReady :
      (setup : Setup) (type : AllocType) (s : State S)
      → IsValid S L s
      → FitsThread s.thread_state_cuda
      → FitsDevice setup.init_thread_state
      → AllReady s (target S setup type s)
  unfolding target AllReady
  target-AllReady setup type s v f g =
      if_both (AllReady s) (is_host type) _ _
        (record { fits = omega arith; valid = v; used = refl })
        (thread-AllReady setup s _ _ v f g refl refl)

  from_same :
      (type : AllocType) (size : ℕ) (s s1 : State S) (r : Result ℕ × State S)
      → s1.alloc_used ≡ s.alloc_used
      → Served type size s1 r
      → Served type size s r
  from_same type size s s1 _ e (overlooked s') = overlooked s'
  from_same type size s s1 _ e (served p s' a) = served p s' (record {
    valid = a.valid;
    proper = a.proper;
    unused = subst (λ u. used_find p u ≡ none) e a.unused;
    device = a.device;
    used = λ q.
        a.used q
        ∙ ap (λ u. if q == p then some (alloc_info_encode size type a.device) else used_find q u) e;
  })
  from_same type size s s1 _ e (stopped why s' v) = stopped why s' v
  from_same type size s s1 _ e (charged s' v) = charged s' v

  allocate-Served :
      (setup : Setup) (type : AllocType) (size : ℕ) (s : State S) (r : Result CudaThread × State S)
      → size < 2 ^ 48
      → AllReady s r
      → Served type size s (allocate S setup type size r)
  unfolding allocate AllReady
  allocate-Served setup type size s (err why, s1) h a = stopped why s1 a.valid
  allocate-Served setup type size s (ok ts, s1) h a =
      from_same type size s s1 _ a.used
        (choose-Served type size ts.device h a.fits setup ts.memory_pool s1 _ a.valid refl)

  -- In a valid state, a request for 1 to 2 ^ 46 bytes ends in one of four ways: with the address
  -- MAP_FAILED, with a new block of the rounded size, with an exception in a valid state, or out of
  -- memory with the size charged all the same.
  pub jitc_malloc-Served :
      (setup : Setup) (type : AllocType) (size : ℕ) (s : State S)
      → 1 ≤ size
      → size ≤ 2 ^ 46
      → setup.vector_width ≤ 2 ^ 43
      → FitsThread s.thread_state_cuda
      → FitsDevice setup.init_thread_state
      → IsValid S L s
      → Holds size (block_size setup.vector_width type size)
        × Served type (block_size setup.vector_width type size) s (jitc_malloc S setup type size s)
  unfolding jitc_malloc
  jitc_malloc-Served setup type size s a b c f g v =
      let (k, e, lo, hi) = block_size-Holds setup.vector_width size type a b c in
      (
        (k, e, lo, hi),
        subst (Served type (block_size setup.vector_width type size) s)
            (sym (if_false _ _ (==_ne size 0 (λ z. omega arith))))
            (allocate-Served setup type _ s _ hi (target-AllReady setup type s v f g)),
      )
