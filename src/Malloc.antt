-- ===== src/Malloc.antt =====
-- src/malloc.cpp and src/malloc.h. Round: `round_pow2`; Info: the packed description of a block;
-- System: what the allocator calls; Tables: its maps and counters; State: its state; Cache: the
-- requests to the system and `jitc_flush_malloc_cache`; Alloc: `jitc_malloc` and `jitc_free`;
-- Migrate: `jitc_malloc_migrate`; Accounts and its siblings: the laws.
pub mod Round
pub mod Info
pub mod System
pub mod Tables
pub mod State
pub mod Cache
pub mod Alloc
pub mod Migrate
pub mod Accounts
