-- ===== src/Var.antt =====
-- src/internal.h: `Variable`, `VariableKey` and the part of `State` that stores variables.
pub mod Key
pub mod State
