-- ===== src/Malloc/Migrate.antt =====
-- src/malloc.cpp: `jitc_malloc_migrate`.
use enoki_jit.Prelude.{ℕ, Bool, true, false, ◌||◌, ◌==◌, if◌then◌else◌, ◌∷◌}
use enoki_jit.Prelude.Result.{Result, ok, err, raise, fail}
use enoki_jit.Types.{AllocType}
use enoki_jit.Malloc.Info.{alloc_type_code, alloc_info_encode}
use enoki_jit.Malloc.System.{System}
use enoki_jit.Malloc.Tables.{Counters, write_counter, used_assign}
use enoki_jit.Malloc.State.{Setup, State}
use enoki_jit.Malloc.Cache.{add_size, sub_size}
use enoki_jit.Malloc.Alloc.{
  unknown, broken, known, thread_state_of_cuda, jitc_malloc, jitc_free, lookup,
}

abbrev pub same_type : AllocType → AllocType → Bool
same_type a b = alloc_type_code a == alloc_type_code b

-- A counter with `size` bytes of one type moved to another.
unfoldable pub transfer : AllocType → AllocType → ℕ → Counters → Counters
unfolding add_size sub_size
transfer src dst size c =
    let c1 = write_counter c src (sub_size (c src) size) in
    write_counter c1 dst (add_size (c1 dst) size)

-- Whether a block may stay as it is or change its type in place.
unfoldable pub is_swap : AllocType → AllocType → Bool
is_swap AllocType.host AllocType.host_async = true
is_swap AllocType.host_async AllocType.host = true
is_swap _ _ = false

module _ (S : System) where
  -- A call, and what follows it when it returns.
  abbrev pub and_then {ℓ κ} :
      {A : Type ℓ} {B : Type κ}
      → Result A × State S
      → (A → State S → Result B × State S)
      → Result B × State S
  and_then (err why, s) rest = (err why, s)
  and_then (ok a, s) rest = rest a s

  unfoldable pub copy : ℕ → ℕ → ℕ → State S → State S
  copy dst src size s = record s { copies = (dst, src, size) ∷ s.copies }

  unfoldable pub retype : ℕ → ℕ → AllocType → AllocType → ℕ → State S → State S
  unfolding transfer used_assign
  retype p size src dst device s = record s {
    alloc_usage = transfer src dst size s.alloc_usage;
    alloc_allocated = transfer src dst size s.alloc_allocated;
    alloc_used = used_assign p (alloc_info_encode size dst device) s.alloc_used;
  }

  module _ (setup : Setup) where
    unfoldable pub duplicate : ℕ → AllocType → ℕ → State S → Result ℕ × State S
    unfolding copy
    duplicate p dst size s =
        and_then (jitc_malloc S setup dst size s) (λ q s1. (ok q, copy q p size s1))

    -- The copy into a new block on the way from or to the device.
    unfoldable pub fill : ℕ → AllocType → ℕ → ℕ → State S → Result (Unit {0}) × State S
    unfolding copy
    fill p AllocType.host size q s =
        and_then (jitc_malloc S setup AllocType.host_pinned size s)
          (λ tmp s1. jitc_free S tmp (copy q tmp size (copy tmp p size s1)))
    fill p _ size q s = (ok tt, copy q p size s)

    unfoldable pub cross : ℕ → AllocType → AllocType → ℕ → Bool → State S → Result ℕ × State S
    unfolding fill
    cross p src dst size move s =
        let dst' = if same_type dst AllocType.host then AllocType.host_pinned else dst in
        and_then (thread_state_of_cuda S setup s) (λ ts s1.
          and_then (jitc_malloc S setup dst' size s1) (λ q s2.
            and_then (fill p src size q s2) (λ filled s3.
              if move then and_then (jitc_free S p s3) (λ freed s4. (ok q, s4)) else (ok q, s3))))

    -- Whether nothing needs to be done: the type is the same, and on a device also the device.
    unfoldable pub stays : AllocType → AllocType → ℕ → State S → Result Bool × State S
    stays src dst device s =
        if same_type src dst
        then (if same_type dst AllocType.device
            then and_then (thread_state_of_cuda S setup s) (λ ts s1. (ok (device == ts.device), s1))
            else (ok true, s))
        else (ok false, s)

    unfoldable pub jitc_malloc_migrate : ℕ → AllocType → Bool → State S → Result ℕ × State S
    unfolding lookup stays is_swap retype duplicate cross
    jitc_malloc_migrate p dst move s = if p == 0 then (ok 0, s) else elim (lookup S p s) [
      | unknown ↦ (err raise, s)
      | broken ↦ (err fail, s)
      | known size src device ↦ and_then (stays src dst device s) (λ stay s1.
          if stay
          then (if move then (ok p, s1) else duplicate p dst size s1)
          else (if is_swap src dst
              then (if move
                  then (ok p, retype p size src dst device s1)
                  else duplicate p dst size s1)
              else (if same_type dst AllocType.host_async || same_type src AllocType.host_async
                  then (err raise, s1)
                  else cross p src dst size move s1)))
    ]
