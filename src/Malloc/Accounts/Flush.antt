-- ===== src/Malloc/Accounts/Flush.antt =====
-- `jitc_flush_malloc_cache` of src/malloc.cpp keeps the accounts, and always succeeds outside a
-- recording of a frozen function.
use enoki_jit.Prelude.{ℕ, ap, ◌+◌, ◌≡◌, refl, ◌∙◌, Bool, false, ◌||◌, if_false, [], arith}
use enoki_jit.Prelude.Result.{ok}
use enoki_jit.Types.{AllocType}
use enoki_jit.Malloc.System.{System, Lawful}
use enoki_jit.Malloc.Tables.Weights.{weigh_free, weigh_keys, weigh_used, weigh_pending}
use enoki_jit.Malloc.State.{Setup, State}
use enoki_jit.Malloc.Cache.{
  sub_size, trim_size, release_cache, synchronize, trim_cache, jitc_flush_malloc_cache,
}
use enoki_jit.Malloc.Accounts.{bytes, at, number, Keeps, IsValid}
use enoki_jit.Malloc.Accounts.Returned.{returned_at, release_cache-Returns}
use enoki_jit.Malloc.Accounts.Release.{
  trim_size-weigh, weigh-run_pending, keys-run_pending, release_cache-Keeps,
}

module _ (S : System) (L : Lawful S) (setup : Setup) where
  -- The state after the trim, with the system's state as given.
  abbrev trimmed : S.Os → State S → State S
  trimmed os s = record s {
    os = os;
    alloc_free = [];
    alloc_allocated = λ t. sub_size (s.alloc_allocated t) (trim_size t s.alloc_free);
  }

  trim_cache-run :
      (os : S.Os) (s : State S)
      → release_cache S setup s.alloc_free s.os ≡ ok os
      → trim_cache S setup s ≡ (ok tt, trimmed os s)
  unfolding trim_cache
  trim_cache-run os s r = ground arith

  trimmed-IsValid :
      (os : S.Os) (s : State S)
      → IsValid S L s
      → Keeps S L (λ q. weigh_used (at q) s.alloc_used + weigh_pending (at q) s.pending) os
      → IsValid S L (trimmed os s)
  unfolding sub_size weigh_free weigh_keys
  trimmed-IsValid os s v k = record {
    usage = v.usage;
    allocated = λ t. omega (arith, v.allocated t, trim_size-weigh t s.alloc_free);
    owned = λ q. omega (arith, k q);
    decodes = omega (arith, v.decodes);
  }

  synchronize-IsValid : (s : State S) → IsValid S L s → IsValid S L (synchronize S setup s)
  unfolding synchronize weigh_pending
  synchronize-IsValid s v = record {
    usage = v.usage;
    allocated =
        λ t. omega (arith, v.allocated t, weigh-run_pending (bytes t) s.pending s.alloc_free);
    owned = λ q. omega (arith, v.owned q, weigh-run_pending (at q) s.pending s.alloc_free);
    decodes = omega (arith, v.decodes, keys-run_pending s.pending s.alloc_free);
  }

  -- A flush: the cache and the stream are empty afterwards, the blocks in use are untouched and make
  -- up all that is allocated.
  pub record Flushed (s s' : State S) : Type 0 where
    pub valid : IsValid S L s'
    pub cache : s'.alloc_free ≡ []
    pub stream : s'.pending ≡ []
    pub used : s'.alloc_used ≡ s.alloc_used
    pub account : (t : AllocType) → s'.alloc_allocated t ≡ s.alloc_usage t
    -- The system has back the addresses of the cache and the stream, and no other; those of pinned
    -- and device memory only where CUDA is in use.
    pub returned :
        (q : ℕ)
        → number (L.in_use s'.os q)
            + (weigh_free (returned_at setup q) s.alloc_free
                + weigh_pending (returned_at setup q) s.pending)
          ≡ number (L.in_use s.os q)

  account_rest :
      (os : S.Os) (s : State S)
      → IsValid S L s
      → Keeps S L (λ q. weigh_used (at q) s.alloc_used + weigh_pending (at q) s.pending) os
      → s.pending ≡ []
      → (t : AllocType) → (trimmed os s).alloc_allocated t ≡ s.alloc_usage t
  unfolding weigh_pending weigh_free
  account_rest os s v k e t =
      let none_pending : weigh_pending (bytes t) s.pending ≡ 0 = rw e refl in
      omega (arith, v.usage t, (trimmed-IsValid os s v k).allocated t)

  trim_cache-Flushed :
      (s : State S)
      → IsValid S L s
      → s.pending ≡ []
      → (s' : State S) × (trim_cache S setup s ≡ (ok tt, s')) × Flushed s s'
  unfolding weigh_pending
  trim_cache-Flushed s v e =
      let (os, r, k) =
        release_cache-Keeps S L setup s.alloc_free
          (λ q. weigh_used (at q) s.alloc_used + weigh_pending (at q) s.pending) s.os
          (omega (arith, v.decodes)) (λ q. omega (arith, v.owned q)) in
      (
        trimmed os s,
        trim_cache-run os s r,
        record {
          valid = trimmed-IsValid os s v k;
          cache = refl;
          stream = e;
          used = refl;
          account = λ t. account_rest os s v k e t;
          returned = λ q.
              let none_pending : weigh_pending (returned_at setup q) s.pending ≡ 0 =
                ap (weigh_pending (returned_at setup q)) e in
              omega (
                arith,
                none_pending,
                release_cache-Returns S L setup s.alloc_free s.os os (omega (arith, v.decodes))
                    (λ r. omega (arith, v.owned r)) r q,
              );
        },
      )

  stream_empty : (s : State S) → (synchronize S setup s).pending ≡ []
  unfolding synchronize
  stream_empty s = refl

  sync_used : (s : State S) → (synchronize S setup s).alloc_used ≡ s.alloc_used
  unfolding synchronize
  sync_used s = refl

  sync_usage :
      (s : State S) (t : AllocType) → (synchronize S setup s).alloc_usage t ≡ s.alloc_usage t
  unfolding synchronize
  sync_usage s t = refl

  sync_os : (s : State S) → (synchronize S setup s).os ≡ s.os
  unfolding synchronize
  sync_os s = refl

  sync_weight :
      (w : ℕ → ℕ → ℕ) (s : State S)
      → weigh_free w (synchronize S setup s).alloc_free
          + weigh_pending w (synchronize S setup s).pending
        ≡ weigh_free w s.alloc_free + weigh_pending w s.pending
  unfolding synchronize weigh_pending
  sync_weight w s = omega (arith, weigh-run_pending w s.pending s.alloc_free)

  -- In a valid state outside a recording of a frozen function, jitc_flush_malloc_cache succeeds; it
  -- empties the cache and the stream, leaves the blocks in use, and what counts as allocated is what is
  -- in use. The system has back exactly the addresses that were in the cache or the stream, those of
  -- pinned and device memory where CUDA is in use.
  pub jitc_flush_malloc_cache-Flushed :
      (warn : Bool) (s : State S)
      → IsValid S L s
      → s.freezing ≡ false
      → (s' : State S) × (jitc_flush_malloc_cache S setup warn s ≡ (ok tt, s')) × Flushed s s'
  unfolding jitc_flush_malloc_cache
  jitc_flush_malloc_cache-Flushed warn s v f =
      let s1 : State S = record s { warned = s.warned || warn } in
      let v1 : IsValid S L s1 = record {
        usage = v.usage;
        allocated = v.allocated;
        owned = v.owned;
        decodes = v.decodes;
      } in
      let (s', r, flushed) =
        trim_cache-Flushed (synchronize S setup s1) (synchronize-IsValid s1 v1) (stream_empty s1) in
      (
        s',
        if_false _ _ f ∙ r,
        record {
          valid = flushed.valid;
          cache = flushed.cache;
          stream = flushed.stream;
          used = flushed.used ∙ sync_used s1;
          account = λ t. flushed.account t ∙ sync_usage s1 t;
          returned = λ q. omega (
            arith,
            flushed.returned q,
            sync_weight (returned_at setup q) s1,
            ap (λ o. number (L.in_use o q)) (sync_os s1),
          );
        },
      )
