-- ===== src/Tests.antt =====
-- Concrete runs of the model, which show that the hypotheses of the theorems can hold.
pub mod Maps
pub mod Registering
pub mod Numbering
pub mod References
pub mod Values
pub mod Sequences
pub mod Plans
pub mod Memory
pub mod Blocks
pub mod Strings
pub mod Schedules
