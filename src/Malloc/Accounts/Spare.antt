-- ===== src/Malloc/Accounts/Spare.antt =====
-- A block of src/malloc.cpp on its way from one table to another: it is allocated, and in no table.
use mathlib.Core.Option.{some-injective}
use enoki_jit.Prelude.{
  ℕ, ◌+◌, ◌%◌, ◌^◌, ◌≤◌, ◌<◌, ◌≡◌, refl, ◌∙◌, sym, Bool, true, false, ==_self, if_true, if_false,
  if◌then◌else◌, subst, none, some, [], ◌∷◌, ◌++◌, ap, ==→eq, arith, Bool-cases, inl, inr,
}
use enoki_jit.Types.{AllocType}
use enoki_jit.Malloc.Info.{
  alloc_type_code, alloc_type_of, alloc_type_of-code, alloc_info_encode, alloc_info_decode,
  alloc_info_decode-encode,
}
use enoki_jit.Malloc.System.{System, Lawful}
use enoki_jit.Malloc.Tables.{
  UsedMap, FreeMap, write_counter, used_find, used_emplace, used_erase, free_push, free_pop,
}
use enoki_jit.Malloc.Tables.Weights.{
  weigh_keys, weigh_used, weigh_pending, weigh_free-free_push, weigh_free-free_pop,
  weigh_used-emplace, weigh_used-erase, weigh_pending-append, weigh_keys-free_push,
  weigh_keys-free_pop,
}
use enoki_jit.Malloc.State.{State}
use enoki_jit.Malloc.Cache.{add_size, sub_size}
use enoki_jit.Malloc.Alloc.{count_used}
use enoki_jit.Malloc.Migrate.{same_type}
use enoki_jit.Malloc.Accounts.{bytes, at, unread, number, total, IsValid}

pub unread_block : (info p q : ℕ) → unread info p ≡ unread info q
unfolding unread
unread_block info p q = refl

pub at_self : (p info : ℕ) → at p info p ≡ 1
unfolding at
at_self p info = ground (arith, ==_self p)

pub find_none : (p : ℕ) (u : UsedMap) → weigh_used (at p) u ≡ 0 → used_find p u ≡ none
unfolding weigh_used used_find at
find_none p [] h = refl
find_none p ((q, info) ∷ u) h = ground (arith, find_none p u)

pub find_some : (p info : ℕ) (u : UsedMap) → used_find p u ≡ some info → 1 ≤ weigh_used (at p) u
find_some p info u h = omega (arith, weigh_used-erase (at p) p info u h, at_self p info)

-- What a block counts that has a type, and one whose info packs `size` and `type`.
pub bytes_typed :
    (t type : AllocType) (info p : ℕ)
    → (alloc_info_decode info).1 ≡ some type
    → bytes t info p ≡ (if same_type type t then (alloc_info_decode info).0 else 0)
unfolding bytes
bytes_typed t type info p e = ground arith

pub unread_typed :
    (type : AllocType) (info p : ℕ) → (alloc_info_decode info).1 ≡ some type → unread info p ≡ 0
unfolding unread
unread_typed type info p e = ground arith

pub bytes_encoded :
    (t type : AllocType) (size device p : ℕ)
    → size < 2 ^ 48
    → device < 256
    → bytes t (alloc_info_encode size type device) p ≡ (if same_type type t then size else 0)
bytes_encoded t type size device p h d =
    let e : alloc_info_decode (alloc_info_encode size type device) ≡ (size, some type, device) =
      alloc_info_decode-encode size type device h d in
    bytes_typed t type _ p (ap (λ x. x.1) e) ∙ ap (λ x. if same_type type t then x.0 else 0) e

pub same_type_eq : (a b : AllocType) → same_type a b ≡ true → a ≡ b
same_type_eq a b h =
    some-injective a b
      (sym (alloc_type_of-code a) ∙ ap alloc_type_of (==→eq _ _ h) ∙ alloc_type_of-code b)

same_type_self : (a : AllocType) → same_type a a ≡ true
same_type_self a = ==_self (alloc_type_code a)

pub same_type_swap : (a b : AllocType) → same_type a b ≡ false → same_type b a ≡ false
same_type_swap a b e = ground arith

-- A property of all counters after a write.
pub write_counter_at :
    (c : AllocType → ℕ) (type : AllocType) (n : ℕ) (P : AllocType → ℕ → Type 0)
    → P type n
    → ((t : AllocType) → same_type t type ≡ false → P t (c t))
    → (t : AllocType) → P t (write_counter c type n t)
write_counter_at c type n P here other t = elim (Bool-cases (same_type t type)) [
  | inl e ↦
      subst (P t) (sym (if_true n (c t) e)) (subst (λ a. P a n) (sym (same_type_eq t type e)) here)
  | inr e ↦ subst (P t) (sym (if_false n (c t) e)) (other t e)
]

pub bytes_same :
    (type : AllocType) (size device p : ℕ)
    → size < 2 ^ 48
    → device < 256
    → bytes type (alloc_info_encode size type device) p ≡ size
bytes_same type size device p h d =
    bytes_encoded type type size device p h d ∙ if_true _ _ (same_type_self type)

pub bytes_other :
    (t type : AllocType) (size device p : ℕ)
    → same_type t type ≡ false
    → size < 2 ^ 48
    → device < 256
    → bytes t (alloc_info_encode size type device) p ≡ 0
bytes_other t type size device p e h d =
    bytes_encoded t type size device p h d ∙ if_false _ _ (same_type_swap t type e)

pub unread_encoded :
    (type : AllocType) (size device p : ℕ)
    → size < 2 ^ 48
    → device < 256
    → unread (alloc_info_encode size type device) p ≡ 0
unread_encoded type size device p h d =
    unread_typed type _ p (ap (λ x. x.1) (alloc_info_decode-encode size type device h d))

module _ (S : System) (L : Lawful S) where
  pub record Spare (p info : ℕ) (s : State S) : Type 0 where
    pub usage : (t : AllocType) → s.alloc_usage t ≡ weigh_used (bytes t) s.alloc_used % 2 ^ 64
    pub allocated :
        (t : AllocType) → s.alloc_allocated t ≡ (total S (bytes t) s + bytes t info p) % 2 ^ 64
    pub owned : (q : ℕ) → total S (at q) s + at q info p ≤ number (L.in_use s.os q)
    pub decodes :
        weigh_used unread s.alloc_used
          + weigh_keys unread s.alloc_free
          + weigh_pending unread s.pending
        ≡ 0
    pub known : unread info 0 ≡ 0

  pub number_le : (b : Bool) → number b ≤ 1
  number_le true = omega arith
  number_le false = omega arith

  pub Spare-unused : (p info : ℕ) (s : State S) → Spare p info s → used_find p s.alloc_used ≡ none
  Spare-unused p info s v =
      find_none p s.alloc_used
        (omega (arith, v.owned p, at_self p info, number_le (L.in_use s.os p)))

  -- Counted as used, with the info that was packed for it.
  pub count_used-IsValid :
      (type : AllocType) (size device p : ℕ) (s : State S)
      → size < 2 ^ 48
      → device < 256
      → Spare p (alloc_info_encode size type device) s
      → IsValid S L (count_used S type size (alloc_info_encode size type device) p s)
  unfolding count_used add_size
  count_used-IsValid type size device p s h d v =
      let info = alloc_info_encode size type device in
      let unused : used_find p s.alloc_used ≡ none = Spare-unused p info s v in
      let put : (w : ℕ → ℕ → ℕ)
          → weigh_used w (used_emplace p info s.alloc_used) ≡ w info p + weigh_used w s.alloc_used =
        λ w. weigh_used-emplace w p info s.alloc_used unused in
      record {
        usage =
            write_counter_at s.alloc_usage type _
              (λ t n. n ≡ weigh_used (bytes t) (used_emplace p info s.alloc_used) % 2 ^ 64)
              (omega (arith, v.usage type, put (bytes type), bytes_same type size device p h d))
              (λ t e.
                omega (arith, v.usage t, put (bytes t), bytes_other t type size device p e h d));
        allocated = λ t. omega (arith, v.allocated t, put (bytes t));
        owned = λ q. omega (arith, v.owned q, put (at q));
        decodes = omega (arith, v.decodes, put unread, v.known, unread_block info p 0);
      }

  -- Put back to the cache.
  pub free_push-IsValid :
      (p info : ℕ) (s : State S)
      → Spare p info s
      → IsValid S L (record s { alloc_free = free_push info p s.alloc_free })
  free_push-IsValid p info s v = record {
    usage = v.usage;
    allocated =
        λ t. omega (arith, v.allocated t, weigh_free-free_push (bytes t) info p s.alloc_free);
    owned = λ q. omega (arith, v.owned q, weigh_free-free_push (at q) info p s.alloc_free);
    decodes = omega (arith, v.decodes, v.known, weigh_keys-free_push unread info p s.alloc_free);
  }

  -- Put into the stream.
  pub append-IsValid :
      (p info : ℕ) (s : State S)
      → Spare p info s
      → IsValid S L (record s { pending = s.pending ++ (info, p) ∷ [] })
  append-IsValid p info s v = record {
    usage = v.usage;
    allocated = λ t. omega (arith, v.allocated t, weigh_pending-append (bytes t) info p s.pending);
    owned = λ q. omega (arith, v.owned q, weigh_pending-append (at q) info p s.pending);
    decodes = omega (
      arith,
      v.decodes,
      v.known,
      weigh_pending-append unread info p s.pending,
      unread_block info p 0,
    );
  }

  -- Taken from the cache.
  pub free_pop-Spare :
      (p info : ℕ) (m : FreeMap) (s : State S)
      → IsValid S L s
      → free_pop info s.alloc_free ≡ some (p, m)
      → unread info 0 ≡ 0
      → Spare p info (record s { alloc_free = m })
  free_pop-Spare p info m s v e k = record {
    usage = v.usage;
    allocated =
        λ t. omega (arith, v.allocated t, weigh_free-free_pop (bytes t) info p s.alloc_free m e);
    owned = λ q. omega (arith, v.owned q, weigh_free-free_pop (at q) info p s.alloc_free m e);
    decodes = omega (arith, v.decodes, weigh_keys-free_pop unread info p s.alloc_free m e);
    known = k;
  }

  -- Taken out of the blocks in use.
  pub used_erase-Spare :
      (p info : ℕ) (type : AllocType) (s : State S)
      → IsValid S L s
      → used_find p s.alloc_used ≡ some info
      → (alloc_info_decode info).1 ≡ some type
      → Spare p info (record s {
        alloc_used = used_erase p s.alloc_used;
        alloc_usage =
            write_counter s.alloc_usage type
              (sub_size (s.alloc_usage type) (alloc_info_decode info).0);
      })
  unfolding sub_size
  used_erase-Spare p info type s v e f =
      let out : (w : ℕ → ℕ → ℕ)
          → weigh_used w s.alloc_used ≡ w info p + weigh_used w (used_erase p s.alloc_used) =
        λ w. weigh_used-erase w p info s.alloc_used e in
      record {
        usage =
            write_counter_at s.alloc_usage type _
              (λ t n. n ≡ weigh_used (bytes t) (used_erase p s.alloc_used) % 2 ^ 64)
              (omega (
                arith,
                v.usage type,
                out (bytes type),
                bytes_typed type type info p f,
                if_true (alloc_info_decode info).0 0 (same_type_self type),
              ))
              (λ t g. omega (
                arith,
                v.usage t,
                out (bytes t),
                bytes_typed t type info p f,
                if_false (alloc_info_decode info).0 0 (same_type_swap t type g),
              ));
        allocated = λ t. omega (arith, v.allocated t, out (bytes t));
        owned = λ q. omega (arith, v.owned q, out (at q));
        decodes = omega (arith, v.decodes, out unread);
        known = unread_typed type info 0 f;
      }
