-- ===== src/Malloc/Accounts/Runs.antt =====
-- src/malloc.cpp: sequences of allocations, releases, flushes and moves.
use enoki_jit.Prelude.{
  ℕ, ◌+◌, ◌^◌, ◌≤◌, ◌≡◌, ◌≢◌, inl, inr, sym, ap, Bool, true, false, subst, if_true, Bool-cases,
  none, List, [], ◌∷◌, arith, List-cases,
}
use enoki_jit.Prelude.Result.{Error, Result, ok, err, raise, ok-injective}
use enoki_jit.Types.{AllocType}
use enoki_jit.Malloc.System.{System, Lawful, map_failed}
use enoki_jit.Malloc.Tables.{free_push}
use enoki_jit.Malloc.Tables.Weights.{
  weigh_used, weigh_free, weigh_keys, weigh_pending, weigh_free-free_push, weigh_keys-free_push,
}
use enoki_jit.Malloc.State.{Setup, State, FitsThread, FitsDevice}
use enoki_jit.Malloc.Cache.{jitc_flush_malloc_cache}
use enoki_jit.Malloc.Alloc.{jitc_malloc, jitc_free, run_one, jitc_malloc_clear_statistics}
use enoki_jit.Malloc.Migrate.{is_swap, jitc_malloc_migrate}
use enoki_jit.Malloc.Accounts.{bytes, at, unread, Uses, IsValid}
use enoki_jit.Malloc.Accounts.Spare.{unread_block}
use enoki_jit.Malloc.Accounts.Flush.{jitc_flush_malloc_cache-Flushed}
use enoki_jit.Malloc.Accounts.Alloc.{
  Served, overlooked, served, stopped, charged, jitc_malloc-Served,
}
use enoki_jit.Malloc.Accounts.Free.{loses, jitc_free-Freed}
use enoki_jit.Malloc.Accounts.Move.{jitc_malloc_migrate-IsValid}

module _ (S : System) where
  -- `state.alloc_*` at the start of the process.
  unfoldable pub new_state : S.Os → State S
  new_state os = record {
    os = os;
    alloc_used = [];
    alloc_free = [];
    pending = [];
    alloc_usage = λ t. 0;
    alloc_allocated = λ t. 0;
    alloc_watermark = λ t. 0;
    thread_state_cuda = none;
    freezing = false;
    warned = false;
    copies = [];
  }

  module _ (setup : Setup) where
    -- The states that calls lead to: requests of 1 to 2 ^ 46 bytes that give an address, releases
    -- that lose nothing, host functions, flushes outside recordings, moves between the host types, and
    -- changes of the thread and of the recording, by a caller that sees no failed request.
    pub data Run : State S → Type 0 where
      start : (os : S.Os) → Run (new_state os)
      malloc :
          (type : AllocType) (size p : ℕ) (s s' : State S)
          → Run s
          → 1 ≤ size
          → size ≤ 2 ^ 46
          → setup.vector_width ≤ 2 ^ 43
          → FitsThread s.thread_state_cuda
          → FitsDevice setup.init_thread_state
          → jitc_malloc S setup type size s ≡ (ok p, s')
          → p ≢ map_failed
          → Run s'
      free : (p : ℕ) (s : State S) → Run s → loses p s ≡ false → Run (jitc_free S p s).1
      host_function : (s : State S) → Run s → Run (run_one S s)
      flush : (warn : Bool) (s : State S) → Run s → Run (jitc_flush_malloc_cache S setup warn s).1
      move :
          (p size : ℕ) (src dst : AllocType) (device : ℕ) (s : State S)
          → Run s
          → p ≢ 0
          → is_swap src dst ≡ true
          → Uses S s p size src device
          → Run (jitc_malloc_migrate S setup p dst true s).1
      clear : (s : State S) → Run s → Run (jitc_malloc_clear_statistics S s)
      record_frozen : (b : Bool) (s : State S) → Run s → Run (record s { freezing = b })

module _ (S : System) (L : Lawful S) (setup : Setup) where
  idle : (s : State S) → s.pending ≡ [] → run_one S s ≡ s
  unfolding run_one
  idle s e = ground arith

  busy :
      (info p : ℕ) (rest : List (ℕ × ℕ)) (s : State S)
      → s.pending ≡ (info, p) ∷ rest
      → run_one S s ≡ record s { pending = rest; alloc_free = free_push info p s.alloc_free }
  unfolding run_one
  busy info p rest s e = ground arith

  pushed :
      (info p : ℕ) (rest : List (ℕ × ℕ)) (s : State S)
      → s.pending ≡ (info, p) ∷ rest
      → IsValid S L s
      → IsValid S L (record s { pending = rest; alloc_free = free_push info p s.alloc_free })
  unfolding weigh_pending
  pushed info p rest s e v =
      let split : (w : ℕ → ℕ → ℕ) → weigh_pending w s.pending ≡ w info p + weigh_pending w rest =
        λ w. ap (weigh_pending w) e in
      record {
        usage = v.usage;
        allocated = λ t. omega (
          arith,
          v.allocated t,
          split (bytes t),
          weigh_free-free_push (bytes t) info p s.alloc_free,
        );
        owned = λ q.
            omega (arith, v.owned q, split (at q), weigh_free-free_push (at q) info p s.alloc_free);
        decodes = omega (
          arith,
          v.decodes,
          split unread,
          weigh_keys-free_push unread info p s.alloc_free,
          unread_block info p 0,
        );
      }

  run_one-IsValid : (s : State S) → IsValid S L s → IsValid S L (run_one S s)
  run_one-IsValid s v = elim (List-cases s.pending) [
    | inl e ↦ subst (IsValid S L) (sym (idle s e)) v
    | inr ((info, p), rest, e) ↦
        subst (IsValid S L) (sym (busy info p rest s e)) (pushed info p rest s e v)
  ]

  frozen :
      (warn : Bool) (s : State S)
      → s.freezing ≡ true
      → jitc_flush_malloc_cache S setup warn s ≡ (err raise, s)
  unfolding jitc_flush_malloc_cache
  frozen warn s e = if_true _ _ e

  flush-IsValid :
      (warn : Bool) (s : State S)
      → IsValid S L s
      → IsValid S L (jitc_flush_malloc_cache S setup warn s).1
  flush-IsValid warn s v = elim (Bool-cases s.freezing) [
    | inl e ↦ subst (λ r. IsValid S L r.1) (sym (frozen warn s e)) v
    | inr e ↦
        let (s', r, f) = jitc_flush_malloc_cache-Flushed S L setup warn s v e in
        subst (λ x. IsValid S L x.1) (sym r) f.valid
  ]

  err_not_ok : (why : Error) (p : ℕ) → ¬ (err why ≡ ok p)
  err_not_ok why p e = cc

  malloc-IsValid :
      (type : AllocType) (size p : ℕ) (s : State S) (r : Result ℕ × State S) (s' : State S)
      → Served S L type size s r
      → r ≡ (ok p, s')
      → p ≢ map_failed
      → IsValid S L s'
  malloc-IsValid type size p s _ s' (overlooked s1) e n =
      absurd (n (ok-injective _ _ (sym (ap (λ x. x.0) e))))
  malloc-IsValid type size p s _ s' (served q s1 a) e n =
      subst (IsValid S L) (ap (λ x. x.1) e) a.valid
  malloc-IsValid type size p s _ s' (stopped why s1 v) e n =
      absurd (err_not_ok why p (ap (λ x. x.0) e))
  malloc-IsValid type size p s _ s' (charged s1 v) e n =
      absurd (err_not_ok raise p (ap (λ x. x.0) e))

  free-IsValid :
      (p : ℕ) (s : State S) → loses p s ≡ false → IsValid S L s → IsValid S L (jitc_free S p s).1
  free-IsValid p s k v = elim (jitc_free-Freed S L p s k v) [
    | inl (z, e) ↦ subst (λ r. IsValid S L r.1) (sym e) v
    | inr (inl (n, f, e)) ↦ subst (λ r. IsValid S L r.1) (sym e) v
    | inr (inr (n, f, (s', e, d))) ↦ subst (λ r. IsValid S L r.1) (sym e) d.valid
  ]

  new_state-IsValid : (os : S.Os) → IsValid S L (new_state S os)
  unfolding new_state weigh_used weigh_free weigh_keys weigh_pending
  new_state-IsValid os = record {
    usage = λ t. omega arith;
    allocated = λ t. omega arith;
    owned = λ q. omega arith;
    decodes = omega arith;
  }

  clear-IsValid : (s : State S) → IsValid S L s → IsValid S L (jitc_malloc_clear_statistics S s)
  unfolding jitc_malloc_clear_statistics
  clear-IsValid s v = record {
    usage = v.usage;
    allocated = v.allocated;
    owned = v.owned;
    decodes = v.decodes;
  }

  frozen-IsValid :
      (b : Bool) (s : State S) → IsValid S L s → IsValid S L (record s { freezing = b })
  frozen-IsValid b s v = record {
    usage = v.usage;
    allocated = v.allocated;
    owned = v.owned;
    decodes = v.decodes;
  }

  -- From a new state, after any sequence of requests for 1 to 2 ^ 46 bytes that give an address other
  -- than MAP_FAILED, of releases other than that of host-pinned memory without a CUDA thread, of host
  -- functions, flushes, moves of blocks in use between host and host-asynchronous memory, resets of the
  -- watermarks and changes of the freezing flag, the state is valid: the counters are the bytes of the
  -- blocks in use and of all blocks, and each address is in one place and in use by the system.
  pub Run-IsValid : (s : State S) → Run S setup s → IsValid S L s
  Run-IsValid _ (start os) = new_state-IsValid os
  Run-IsValid _ (malloc type size p s s' run a b c f g e n) =
      let v = Run-IsValid s run in
      let (big, d) = jitc_malloc-Served S L setup type size s a b c f g v in
      malloc-IsValid type _ p s _ s' d e n
  Run-IsValid _ (free p s run k) = free-IsValid p s k (Run-IsValid s run)
  Run-IsValid _ (host_function s run) = run_one-IsValid s (Run-IsValid s run)
  Run-IsValid _ (flush warn s run) = flush-IsValid warn s (Run-IsValid s run)
  Run-IsValid _ (move p size src dst device s run n h u) =
      let (s', e, v, after) =
        jitc_malloc_migrate-IsValid S L setup p size src dst device s (Run-IsValid s run) n h u in
      subst (λ r. IsValid S L r.1) (sym e) v
  Run-IsValid _ (clear s run) = clear-IsValid s (Run-IsValid s run)
  Run-IsValid _ (record_frozen b s run) = frozen-IsValid b s (Run-IsValid s run)
