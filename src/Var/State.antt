-- ===== src/Var/State.antt =====
-- src/internal.h, src/var.cpp: `State` (the part that stores variables) and `ThreadState`, access
-- to variables, reference counts, and the map of local value numbering. `L` is `LVNMap`.
pub mod Free
pub mod New
pub mod Refs
pub mod Store
pub mod Frees
pub mod Runs
use Prim.Native.String.{String}
use Prim.Native.String
use enoki_jit.Prelude.{
  ℕ, ◌+◌, ◌-◌, ◌*◌, ◌%◌, ◌/◌, ◌^◌, ◌≡◌, Bool, true, false, not, ◌&&◌, ◌||◌, List, [], ◌∷◌, ◌++◌,
  Option, none, some, length, get_elem?, set, leb, ◌==◌, if◌then◌else◌,
}
use enoki_jit.Prelude.Result.{Result, ok, err, raise, fail, ◌>>=◌}
use enoki_jit.RobinMap.{RobinMap}
use enoki_jit.Types.{JitBackend}
use enoki_jit.Var.Key.{Variable, VariableKey, variable_key, zero_variable}

-- The bits of `jitc_flags()` that the modelled code reads.
pub record Flags : Type 0 where
  pub value_numbering : Bool
  pub reuse_indices : Bool
  pub constant_propagation : Bool
  pub fast_math : Bool
  pub optimize_calls : Bool
  pub symbolic_scope : Bool
  pub debug : Bool

-- `VariableExtra`; `callback` says whether one is set.
pub record Extra : Type 0 where
  pub label : Option String
  pub callback : Bool

pub record ThreadState : Type 0 where
  pub scope : ℕ
  pub mask_stack : List ℕ
  pub label_prefix : Option String

-- `released` lists the data pointers given to `jitc_free`, and `notified` the variables whose
-- callback was told of their end, the latest first. `location` is `source_location_buf`.
module _ (L : RobinMap VariableKey ℕ) where
  pub record State : Type 0 where
    pub variables : List Variable
    pub unused_variables : List ℕ
    pub lvn_map : L.Map
    pub extra : List Extra
    pub unused_extra : List ℕ
    pub scope_ctr : ℕ
    pub variable_counter : ℕ
    pub flags : Flags
    pub cuda : ThreadState
    pub llvm : ThreadState
    pub default_backend : JitBackend
    pub location : String
    pub released : List ℕ
    pub notified : List ℕ

abbrev pub no_extra : Extra
no_extra = record { label = none; callback = false }

-- The constructor `State()`, whose vectors have one entry, with the threads' states beside it.
unfoldable pub new_state :
    (L : RobinMap VariableKey ℕ) → Flags → ThreadState → ThreadState → JitBackend → State L
new_state L flags cuda llvm backend = record {
  variables = zero_variable ∷ [];
  unused_variables = [];
  lvn_map = L.empty;
  extra = no_extra ∷ [];
  unused_extra = [];
  scope_ctr = 2;
  variable_counter = 0;
  flags = flags;
  cuda = cuda;
  llvm = llvm;
  default_backend = backend;
  location = String.[];
  released = [];
  notified = [];
}

abbrev pub or_fail {ℓ} : {A : Type ℓ} → Option A → Result A
or_fail none = err fail
or_fail (some a) = ok a

-- Neither kind of reference is held.
abbrev pub is_unused : Variable → Bool
is_unused v = (v.ref_count == 0) && (v.ref_count_se == 0)

-- `Variable::is_dirty`.
abbrev pub is_dirty : Variable → Bool
is_dirty v = not (v.ref_count_se == 0)

module _ {L : RobinMap VariableKey ℕ} where
  abbrev pub put_var : State L → ℕ → Variable → State L
  put_var s i v = record s { variables = set s.variables i v }

  -- `thread_state(backend)`, once both thread states are initialised.
  abbrev pub thread_state : State L → JitBackend → ThreadState
  thread_state s JitBackend.cuda = s.cuda
  thread_state s _ = s.llvm

  -- "Access a variable by ID, terminate with an error if it doesn't exist".
  unfoldable pub jitc_var : State L → ℕ → Result Variable
  jitc_var s i =
      if i == 0 || leb (length s.variables) i
      then err fail
      else do v ← or_fail (get_elem? s.variables i); (if is_unused v then err fail else ok v)

  -- "Access a variable through a weak reference. May return nullptr".
  unfoldable pub jitc_var_weak : State L → ℕ → ℕ → Result (Option Variable)
  jitc_var_weak s i counter = if leb (length s.variables) i then err fail else do
    v ← or_fail (get_elem? s.variables i)
    ok (if i == 0 || not (v.counter == counter) then none else some v)

  -- `jitc_var_inc_ref(index, v)`.
  unfoldable pub add_ref : State L → ℕ → Variable → State L
  add_ref s i v = put_var s i (record v { ref_count = (v.ref_count + 1) % 2 ^ 32 })

  unfoldable pub jitc_var_inc_ref : State L → ℕ → Result (State L)
  unfolding add_ref jitc_var
  jitc_var_inc_ref s i = if i == 0 then ok s else do v ← jitc_var s i; ok (add_ref s i v)

  -- `jitc_var_inc_ref_se(index, v)`.
  unfoldable pub add_ref_se : State L → ℕ → Variable → State L
  add_ref_se s i v = put_var s i (record v { ref_count_se = (v.ref_count_se + 1) % 2 ^ 16 })

  unfoldable pub jitc_var_inc_ref_se : State L → ℕ → Result (State L)
  unfolding add_ref_se jitc_var
  jitc_var_inc_ref_se s i = if i == 0 then ok s else do v ← jitc_var s i; ok (add_ref_se s i v)

  -- The handle holds the counter above the index.
  pub jitc_var_stash_ref : State L → ℕ → Result (ℕ × State L)
  unfolding jitc_var
  jitc_var_stash_ref s i = if i == 0 then ok (0, s) else do
    v ← jitc_var s i
    (if not (v.ref_count_stashed == 0) || v.is_array
        then ok (0, s)
        else ok (
          v.counter * 2 ^ 32 + i,
          put_var s i (record v { ref_count_stashed = v.ref_count % 2 ^ 16 }),
        ))

  pub jitc_var_unstash_ref : State L → ℕ → Result (State L)
  unfolding jitc_var_weak
  jitc_var_unstash_ref s handle = if handle == 0 then ok s else do
    let i = handle % 2 ^ 32
    found ← jitc_var_weak s i (handle / 2 ^ 32 % 2 ^ 32)
    elim found [ none ↦ ok s | some v ↦ ok (put_var s i (record v { ref_count_stashed = 0 })) ]

  -- "Remove a variable from the cache used for common subexpression elimination".
  unfoldable pub jitc_lvn_drop : State L → ℕ → Variable → State L
  jitc_lvn_drop s i v = elim (L.find s.lvn_map (variable_key v)) [
    | none ↦ s
    | some j ↦ if j == i then record s { lvn_map = L.erase s.lvn_map (variable_key v) } else s
  ]

  unfoldable pub jitc_lvn_put : State L → ℕ → Variable → State L
  jitc_lvn_put s i v = elim (L.find s.lvn_map (variable_key v)) [
    | none ↦ record s { lvn_map = L.put s.lvn_map (variable_key v) i }
    | some j ↦ s
  ]
