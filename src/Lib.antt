-- ===== src/Lib.antt =====
-- A model of the core of the just-in-time compiler, with proofs.
--
-- The compiler records operations as variables in a trace. A variable names its operands by index;
-- equal operations are numbered once; counts of references decide when an entry is freed. The
-- operations simplify before they record. The registry gives class instances small IDs, so that a
-- recorded call can select among them.
--
-- Files, and the code that each models:
-- - Types, Types/Kind: the enumerations and the tables of `include/drjit-core/jit.h`,
--   `src/internal.h` and `src/var.cpp`.
-- - Var/Key: `Variable` and `VariableKey` (`src/internal.h`); Var/Key/Injective: what the key tells apart.
-- - Var/State: `State`, access by `jitc_var`, reference counts, stashing and the LVN map
--   (`src/internal.h`, `src/var.cpp`). Var/State/Free: `jitc_var_free`, `jitc_var_dec_ref` and
--   `jitc_var_dec_ref_se`. Var/State/New: `jitc_var_new` and the constructors of leaves; its
--   children Room, Label, Insert, Reuse and Value: what `jitc_var_new` does to the store;
--   Var/State/New/Node: `jitc_var_new_node_0` to `jitc_var_new_node_4`. Var/State/Refs and its
--   children: the meaning of the counts, and how the operations keep it. Var/State/Store: the free
--   lists and value numbering while variables wait to be freed; Var/State/Frees and Frees/Loop: what
--   is done with a variable that loses its last reference. Var/State/Runs: sequences of calls.
-- - Registry/Slots: one domain of `src/registry.cpp`; Registry: the registry as a whole;
--   Registry/Invariant, Registry/Lookup: its invariant and what lookups return.
-- - Op/Word: the arithmetic of literals in `src/op.cpp`; Op/Plan: operands, plans and the folding of
--   literals; Op/Plan/Numeric, Op/Plan/Compare, Op/Plan/Bitwise: the chain of simplifications of each
--   binary operation, as the choice of a plan; Op/Plan/Sound: the value of a plan.
-- - RobinMap: the laws asked of `tsl::robin_map`; RobinMap/Assoc: lists that have them.
-- - Malloc and its children: `src/malloc.cpp` and `src/malloc.h`. Round: `round_pow2`; Info:
--   `AllocInfo` and the rounded sizes; System: the C library's and the driver's functions; Tables and
--   State: the maps, the counters and the state; Cache: requests, `jitc_flush_malloc_cache`; Alloc:
--   `jitc_malloc`, `jitc_free`; Migrate: `jitc_malloc_migrate`; Accounts and its children: the
--   invariant, and each operation against it.
-- - StringBuffer and its children: `src/strbuf.cpp` and `src/strbuf.h`. Room: growth; Fmt: the loop of
--   `fmt` and `vfmt`; Moves: `move_suffix`; Numbers, Numbers/Reverse, Numbers/Printed: numbers in base
--   10 and 16; Names: the names of types (`src/var.cpp`); Format: formats and arguments; Cuda,
--   Cuda/Emitted, Cuda/Safe: `fmt_cuda` and the length that it reserves; Llvm, Llvm/Write: `fmt_llvm`;
--   Llvm/Write/Groups: its alternatives; Llvm/Write/Overrun: integer literals.
-- - Eval: the order of the schedule and its groups in `jitc_eval_impl` (`src/eval.cpp`, `src/eval.h`);
--   Eval/Sorted, Eval/Grouped: what they are for every schedule; Eval/CleanUp: the loop after the
--   launch; Eval/CleanUp/Balance: its effect on the reference counts;
--   Eval/CleanUp/Edges: its effect on the variable.
-- - Prelude: shared names; lists, texts and priority queues over native
--   numbers; results with two errors,
--   `raise` for an exception and `fail` for the end of the process or undefined behaviour.
-- - Bits: bit fields that stand above a boundary, disjunctions of words. Tests: concrete runs.
--
-- State is passed explicitly. A count of references wraps as its C++ type does; assertions are on, so
-- that a count that would go below 0 is a failure. Vectors have fewer than 2 ^ 32 entries. The loop of
-- `jitc_var_free` runs on fuel, one more than the number of variables in use: each round frees one
-- variable, and each variable that it puts to the list was in use before. `jitc_eval`, the maps, the
-- arithmetic of floats and the functions that the allocator calls are parameters.
--
-- The allocator's calls give their result or exception together with the state that they leave. Sizes
-- are words of 64 bits; a request is at most 2 ^ 46 bytes, so that the rounded size fits the 48 bits of
-- its packed description. A vector of addresses is kept with its back first.
--
-- A text is a list of codes, without the bytes behind its end; a write behind the capacity is a
-- failure. A buffer doubles at most once for each byte that is needed, and 64 rounds are enough for the
-- digits of a word of 64 bits. `va_arg` with another type than that of the argument is a failure.
--
-- Not modelled: what callbacks do (they are recorded), logging, hashing, the traversal
-- of the trace and the launch of kernels,
-- the contents of memory, calls, loops, conditionals and arrays, code generation, devices, the locks of the
-- interface functions.
pub mod Prelude
pub mod RobinMap
pub mod Malloc
pub mod Registry
pub mod StringBuffer
pub mod Eval
pub mod Types
pub mod Bits
pub mod Var
pub mod Op
pub mod Tests
