-- ===== src/Malloc/Accounts/Move.antt =====
-- src/malloc.cpp: `jitc_malloc_migrate` where a block changes its type in place.
use enoki_jit.Prelude.{
  ℕ, ◌+◌, ◌%◌, ◌^◌, ◌≡◌, ◌≢◌, ◌⊎◌, inl, inr, refl, ◌∙◌, sym, ap, true, false, ==_ne, [], ◌∷◌,
  if◌then◌else◌, subst, some, arith,
}
use enoki_jit.Prelude.Result.{ok}
use enoki_jit.Types.{AllocType}
use enoki_jit.Malloc.Info.{alloc_info_encode, alloc_info_decode-encode}
use enoki_jit.Malloc.System.{System, Lawful}
use enoki_jit.Malloc.Tables.{Counters, UsedMap, used_find, used_assign}
use enoki_jit.Malloc.Tables.Weights.{weigh_used, weigh_used-assign}
use enoki_jit.Malloc.State.{Setup, State}
use enoki_jit.Malloc.Cache.{add_size, sub_size}
use enoki_jit.Malloc.Alloc.{lookup, known}
use enoki_jit.Malloc.Migrate.{same_type, transfer, is_swap, stays, retype, jitc_malloc_migrate}
use enoki_jit.Malloc.Accounts.{bytes, at, unread, total, Uses, IsValid}
use enoki_jit.Malloc.Accounts.Spare.{bytes_typed, bytes_encoded, unread_encoded}

swap_cases :
    (src dst : AllocType)
    → is_swap src dst ≡ true
    → ((src ≡ AllocType.host) × (dst ≡ AllocType.host_async))
      ⊎ ((src ≡ AllocType.host_async) × (dst ≡ AllocType.host))
unfolding is_swap
swap_cases AllocType.host AllocType.host_async h = inl (refl, refl)
swap_cases AllocType.host_async AllocType.host h = inr (refl, refl)
swap_cases AllocType.host AllocType.host h = absurd cc
swap_cases AllocType.host AllocType.host_pinned h = absurd cc
swap_cases AllocType.host AllocType.device h = absurd cc
swap_cases AllocType.host_async AllocType.host_async h = absurd cc
swap_cases AllocType.host_async AllocType.host_pinned h = absurd cc
swap_cases AllocType.host_async AllocType.device h = absurd cc
swap_cases AllocType.host_pinned _ h = absurd cc
swap_cases AllocType.device _ h = absurd cc

-- Bytes that move between two accounts of a word each.
Moves : AllocType → AllocType → AllocType → Type 0
Moves src dst t =
    (size : ℕ) (c : Counters) (f : AllocType → ℕ) (n : ℕ)
    → ((a : AllocType) → c a ≡ f a % 2 ^ 64)
    → n + (if same_type src t then size else 0) ≡ f t + (if same_type dst t then size else 0)
    → transfer src dst size c t ≡ n % 2 ^ 64

into_async : (t : AllocType) → Moves AllocType.host AllocType.host_async t
unfolding Moves transfer add_size sub_size
into_async AllocType.host size c f n h e = omega (arith, h AllocType.host)
into_async AllocType.host_async size c f n h e = omega (arith, h AllocType.host_async)
into_async AllocType.host_pinned size c f n h e = omega (arith, h AllocType.host_pinned)
into_async AllocType.device size c f n h e = omega (arith, h AllocType.device)

out_of_async : (t : AllocType) → Moves AllocType.host_async AllocType.host t
unfolding Moves transfer add_size sub_size
out_of_async AllocType.host size c f n h e = omega (arith, h AllocType.host)
out_of_async AllocType.host_async size c f n h e = omega (arith, h AllocType.host_async)
out_of_async AllocType.host_pinned size c f n h e = omega (arith, h AllocType.host_pinned)
out_of_async AllocType.device size c f n h e = omega (arith, h AllocType.device)

swap_differs : (src dst : AllocType) → is_swap src dst ≡ true → same_type src dst ≡ false
swap_differs src dst h = elim (swap_cases src dst h) [
  | inl (a, b) ↦ rw (a, b) refl
  | inr (a, b) ↦ rw (a, b) refl
]

swap_Moves : (src dst t : AllocType) → is_swap src dst ≡ true → Moves src dst t
swap_Moves src dst t h = elim (swap_cases src dst h) [
  | inl (a, b) ↦
      subst (λ x. Moves x dst t) (sym a)
        (subst (λ y. Moves AllocType.host y t) (sym b) (into_async t))
  | inr (a, b) ↦
      subst (λ x. Moves x dst t) (sym a)
        (subst (λ y. Moves AllocType.host_async y t) (sym b) (out_of_async t))
]

find-assign :
    (p old new : ℕ) (u : UsedMap)
    → used_find p u ≡ some old
    → used_find p (used_assign p new u) ≡ some new
unfolding used_find used_assign
find-assign p old new [] h = absurd cc
find-assign p old new ((q, info) ∷ u) h = ground (arith, find-assign p old new u)

module _ (S : System) (L : Lawful S) where
  retype-Uses :
      (p size : ℕ) (src dst : AllocType) (device : ℕ) (s : State S)
      → Uses S s p size src device
      → Uses S (retype S p size src dst device s) p size dst device
  unfolding retype
  retype-Uses p size src dst device s u = record {
    info = alloc_info_encode size dst device;
    entry = find-assign p u.info _ s.alloc_used u.entry;
    decoded = alloc_info_decode-encode size dst device u.small u.near;
    small = u.small;
    near = u.near;
  }

  retype-IsValid :
      (p size : ℕ) (src dst : AllocType) (device : ℕ) (s : State S)
      → is_swap src dst ≡ true
      → Uses S s p size src device
      → IsValid S L s
      → IsValid S L (retype S p size src dst device s)
  unfolding retype at Moves
  retype-IsValid p size src dst device s h u v =
      let new = alloc_info_encode size dst device in
      let assign = λ (w : ℕ → ℕ → ℕ). weigh_used-assign w p u.info new s.alloc_used u.entry in
      let old = λ (t : AllocType).
        bytes_typed t src u.info p (ap (λ x. x.1) u.decoded)
        ∙ ap (λ x. if same_type src t then x.0 else 0) u.decoded in
      let packed = λ (t : AllocType). bytes_encoded t dst size device p u.small u.near in
      record {
        usage = λ t.
            swap_Moves src dst t h size s.alloc_usage (λ a. weigh_used (bytes a) s.alloc_used)
              (weigh_used (bytes t) (used_assign p new s.alloc_used)) v.usage
              (omega (arith, assign (bytes t), old t, packed t));
        allocated = λ t.
            swap_Moves src dst t h size s.alloc_allocated (λ a. total S (bytes a) s) _ v.allocated
              (omega (arith, assign (bytes t), old t, packed t));
        owned = λ q. omega (arith, v.owned q, assign (at q));
        decodes =
            omega
              (arith, v.decodes, assign unread, unread_encoded dst size device p u.small u.near);
      }

  module _ (setup : Setup) where
    lookup-Uses :
        (p size : ℕ) (src : AllocType) (device : ℕ) (s : State S)
        → Uses S s p size src device
        → lookup S p s ≡ known size src device
    unfolding lookup
    lookup-Uses p size src device s u =
        ground (
          arith,
          u.entry,
          ap (λ x. x.0) u.decoded,
          ap (λ x. x.1) u.decoded,
          ap (λ x. x.2) u.decoded,
        )

    migrate-retype :
        (p size : ℕ) (src dst : AllocType) (device : ℕ) (s : State S)
        → p ≢ 0
        → is_swap src dst ≡ true
        → Uses S s p size src device
        → jitc_malloc_migrate S setup p dst true s ≡ (ok p, retype S p size src dst device s)
    unfolding jitc_malloc_migrate stays
    migrate-retype p size src dst device s n h u =
        ground (arith, ==_ne p 0 n, lookup-Uses p size src device s u, swap_differs src dst h)

    -- Moving a block between host and host-asynchronous memory returns the same address, in a valid
    -- state where its bytes count for the new type.
    pub jitc_malloc_migrate-IsValid :
        (p size : ℕ) (src dst : AllocType) (device : ℕ) (s : State S)
        → IsValid S L s
        → p ≢ 0
        → is_swap src dst ≡ true
        → Uses S s p size src device
        → (s' : State S) × (jitc_malloc_migrate S setup p dst true s ≡ (ok p, s'))
          × IsValid S L s'
          × Uses S s' p size dst device
    jitc_malloc_migrate-IsValid p size src dst device s v n h u = (
      retype S p size src dst device s,
      migrate-retype p size src dst device s n h u,
      retype-IsValid p size src dst device s h u v,
      retype-Uses p size src dst device s u,
    )
