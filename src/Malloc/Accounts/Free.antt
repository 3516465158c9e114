-- ===== src/Malloc/Accounts/Free.antt =====
-- `jitc_free` of src/malloc.cpp on every branch, and what follows it: the host functions of the
-- stream, and the next `jitc_malloc` of the same size.
use enoki_jit.Prelude.{
  ℕ, ◌≤◌, ◌≡◌, ◌≢◌, ◌⊎◌, refl, ◌∙◌, sym, ap, Bool, true, false, ◌==◌, ==_self, ==_ne, ==→eq, ==→ne,
  if_true, if_false, if◌then◌else◌, subst, Option, none, some, [], ◌∷◌, ◌++◌, arith, Option-cases,
  Bool-cases, inl, inr,
}
use enoki_jit.Prelude.Result.{ok, err, raise}
use enoki_jit.Types.{AllocType}
use enoki_jit.Malloc.Info.{alloc_info_decode}
use enoki_jit.Malloc.System.{System, Lawful}
use enoki_jit.Malloc.Tables.{
  FreeMap, UsedMap, write_counter, used_find, used_erase, free_push, free_pop,
}
use enoki_jit.Malloc.Tables.Weights.{weigh_used, weigh_used-erase}
use enoki_jit.Malloc.State.{CudaThread, State}
use enoki_jit.Malloc.Cache.{sub_size}
use enoki_jit.Malloc.Alloc.{retire, jitc_free}
use enoki_jit.Malloc.Accounts.{at, unread, IsValid}
use enoki_jit.Malloc.Accounts.Spare.{
  Spare, at_self, find_none, free_push-IsValid, append-IsValid, used_erase-Spare, number_le,
}

-- Host-pinned memory that is given back when there is no CUDA thread any more.
unfoldable pub is_lost : Option AllocType → Option CudaThread → Bool
is_lost (some AllocType.host_pinned) none = true
is_lost _ _ = false

unfoldable pub loses : {S : System} → ℕ → State S → Bool
unfolding is_lost
loses p s = elim (used_find p s.alloc_used) [
  | none ↦ false
  | some info ↦ is_lost (alloc_info_decode info).1 s.thread_state_cuda
]

erase_other :
    (p q : ℕ) (u : UsedMap) → q == p ≡ false → used_find q (used_erase p u) ≡ used_find q u
unfolding used_find used_erase
erase_other p q [] h = refl
erase_other p q ((r, info) ∷ u) h = ground (arith, erase_other p q u h)

pub used_find-erase :
    (p info : ℕ) (u : UsedMap)
    → used_find p u ≡ some info
    → weigh_used (at p) u ≤ 1
    → (q : ℕ) → used_find q (used_erase p u) ≡ (if q == p then none else used_find q u)
used_find-erase p info u e h q = elim (Bool-cases (q == p)) [
  | inl same ↦
      subst (λ r. used_find r (used_erase p u) ≡ (if r == p then none else used_find r u))
        (sym (==→eq q p same))
        (find_none p (used_erase p u)
            (omega (arith, weigh_used-erase (at p) p info u e, at_self p info))
          ∙ sym (if_true _ _ (==_self p)))
  | inr other ↦ erase_other p q u other ∙ sym (if_false _ _ other)
]

typed :
    (p info : ℕ) (u : UsedMap)
    → used_find p u ≡ some info
    → weigh_used unread u ≡ 0
    → (type : AllocType) × ((alloc_info_decode info).1 ≡ some type)
unfolding unread
typed p info u e h = elim (Option-cases (alloc_info_decode info).1) [
  | inl n ↦ absurd (ground (arith, weigh_used-erase unread p info u e))
  | inr t ↦ t
]

pub free_pop-free_push :
    (info p : ℕ) (m : FreeMap)
    → (m' : FreeMap) × (free_pop info (free_push info p m) ≡ some (p, m'))
unfolding free_pop free_push
free_pop-free_push info p [] = ((info, []) ∷ [], ground (arith, ==_self info))
free_pop-free_push info p ((other, []) ∷ m) =
    let (m', e) = free_pop-free_push info p m in
    elim (Bool-cases (info == other)) [
      | inl same ↦ ((info, []) ∷ m, ground (arith, ==_self info))
      | inr differ ↦ ((other, []) ∷ m', ground (arith, e))
    ]
free_pop-free_push info p ((other, q ∷ ps) ∷ m) =
    let (m', e) = free_pop-free_push info p m in
    elim (Bool-cases (info == other)) [
      | inl same ↦ ((info, q ∷ ps) ∷ m, ground (arith, ==_self info))
      | inr differ ↦ ((other, q ∷ ps) ∷ m', ground (arith, e))
    ]

not_lost :
    {S : System} (type : AllocType) (info p : ℕ) (s : State S)
    → used_find p s.alloc_used ≡ some info
    → (alloc_info_decode info).1 ≡ some type
    → loses p s ≡ false
    → is_lost (some type) s.thread_state_cuda ≡ false
unfolding loses
not_lost type info p s e t k = ground arith

module _ (S : System) (L : Lawful S) where
  retire-IsValid :
      (type : AllocType) (info p : ℕ) (s : State S)
      → is_lost (some type) s.thread_state_cuda ≡ false
      → Spare S L p info s
      → IsValid S L (retire S type info p s) × ((retire S type info p s).alloc_used ≡ s.alloc_used)
  unfolding retire is_lost
  retire-IsValid AllocType.host_pinned info p s e v = elim (Option-cases s.thread_state_cuda) [
    | inl n ↦ absurd (ground arith)
    | inr (ts, t) ↦
        let run : retire S AllocType.host_pinned info p s
            ≡ record s { pending = s.pending ++ (info, p) ∷ [] } =
          ground arith in
        subst (λ s'. IsValid S L s' × (s'.alloc_used ≡ s.alloc_used)) (sym run)
          (append-IsValid S L p info s v, refl)
  ]
  retire-IsValid AllocType.host info p s e v = (free_push-IsValid S L p info s v, refl)
  retire-IsValid AllocType.host_async info p s e v = (free_push-IsValid S L p info s v, refl)
  retire-IsValid AllocType.device info p s e v = (free_push-IsValid S L p info s v, refl)

  -- Given back: the block is no longer in use, all others are.
  pub record Freed (p : ℕ) (s s' : State S) : Type 0 where
    pub valid : IsValid S L s'
    pub used :
        (q : ℕ) → used_find q s'.alloc_used ≡ (if q == p then none else used_find q s.alloc_used)

  abbrev pub taken : AllocType → ℕ → ℕ → State S → State S
  taken type info p s = record s {
    alloc_used = used_erase p s.alloc_used;
    alloc_usage =
        write_counter s.alloc_usage type (sub_size (s.alloc_usage type) (alloc_info_decode info).0);
  }

  pub jitc_free-run :
      (type : AllocType) (info p : ℕ) (s : State S)
      → p ≢ 0
      → used_find p s.alloc_used ≡ some info
      → (alloc_info_decode info).1 ≡ some type
      → jitc_free S p s ≡ (ok tt, retire S type info p (taken type info p s))
  unfolding jitc_free
  jitc_free-run type info p s n e t = ground (arith, ==_ne p 0 n)

  found :
      (type : AllocType) (info p : ℕ) (s : State S)
      → p ≢ 0
      → used_find p s.alloc_used ≡ some info
      → (alloc_info_decode info).1 ≡ some type
      → is_lost (some type) s.thread_state_cuda ≡ false
      → IsValid S L s
      → (s' : State S) × (jitc_free S p s ≡ (ok tt, s')) × Freed p s s'
  found type info p s n e t k v =
      let (valid, same) =
        retire-IsValid type info p (taken type info p s) k
          (used_erase-Spare S L p info type s v e t) in
      (
        retire S type info p (taken type info p s),
        jitc_free-run type info p s n e t,
        record {
          valid = valid;
          used = λ q.
              ap (used_find q) same
              ∙ used_find-erase p info s.alloc_used e
                  (omega (arith, v.owned p, number_le S L (L.in_use s.os p))) q;
        },
      )

  -- In a valid state, and unless the block is host-pinned memory and there is no CUDA thread,
  -- jitc_free does nothing for a null pointer, raises for any other address that is not in use and
  -- leaves the state as it is, and succeeds for a block in use, which it takes out of the blocks in
  -- use, in a valid state.
  pub jitc_free-Freed :
      (p : ℕ) (s : State S)
      → loses p s ≡ false
      → IsValid S L s
      → (p ≡ 0) × (jitc_free S p s ≡ (ok tt, s))
        ⊎ ((p ≢ 0) × (used_find p s.alloc_used ≡ none) × (jitc_free S p s ≡ (err raise, s))
            ⊎ ((p ≢ 0)
                × ((info : ℕ) × (used_find p s.alloc_used ≡ some info))
                × ((s' : State S) × (jitc_free S p s ≡ (ok tt, s')) × Freed p s s')))
  unfolding jitc_free
  jitc_free-Freed p s k v = elim (Bool-cases (p == 0)) [
    | inl z ↦ inl (==→eq p 0 z, if_true _ _ z)
    | inr n ↦ inr (elim (Option-cases (used_find p s.alloc_used)) [
      | inl e ↦ inl (==→ne p 0 n, e, ground arith)
      | inr (info, e) ↦
          let (type, t) = typed p info s.alloc_used e (omega (arith, v.decodes)) in
          inr (
            ==→ne p 0 n,
            (info, e),
            found type info p s (==→ne p 0 n) e t (not_lost type info p s e t k) v,
          )
    ])
  ]
