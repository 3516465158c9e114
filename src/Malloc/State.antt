-- ===== src/Malloc/State.antt =====
-- The state that src/malloc.cpp works on, and what it reads of the process.
use enoki_jit.Prelude.{ℕ, ◌<◌, Bool, Option, none, some, List}
use enoki_jit.Prelude.Result.{Result, err, ok}
use enoki_jit.Malloc.System.{System}
use enoki_jit.Malloc.Tables.{Counters, UsedMap, FreeMap}

-- `ThreadState` of the CUDA backend, as far as the allocator reads it.
pub record CudaThread : Type 0 where
  pub device : ℕ
  pub memory_pool : Bool

-- What is fixed once the process is set up: `jitc_llvm_vector_width`, whether `state.backends` has
-- CUDA, the field `memory_pool` of each device, and what `jitc_init_thread_state` gives for CUDA.
pub record Setup : Type 0 where
  pub vector_width : ℕ
  pub has_cuda : Bool
  pub device_pool : ℕ → Bool
  pub init_thread_state : Result CudaThread

-- `pending` holds the release records, each an info and an address, whose host function the CUDA
-- stream has not run yet. `freezing` is the flag `FreezingScope`. `copies` lists the
-- copies issued, the last first, each by destination, source and size; contents are not kept.
pub record State (S : System) : Type 0 where
  pub os : S.Os
  pub alloc_used : UsedMap
  pub alloc_free : FreeMap
  pub pending : List (ℕ × ℕ)
  pub alloc_usage : Counters
  pub alloc_allocated : Counters
  pub alloc_watermark : Counters
  pub thread_state_cuda : Option CudaThread
  pub freezing : Bool
  pub warned : Bool
  pub copies : List (ℕ × ℕ × ℕ)

-- A device that fits into the packed description of a block.
abbrev pub FitsDevice : Result CudaThread → Type 0
FitsDevice (err why) = Unit {0}
FitsDevice (ok ts) = ts.device < 256

abbrev pub FitsThread : Option CudaThread → Type 0
FitsThread none = Unit {0}
FitsThread (some ts) = ts.device < 256
