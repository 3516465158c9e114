-- ===== src/Op.antt =====
-- src/op.cpp: operations on variables. `Word` is the arithmetic of literals, `Plan` the choice of
-- how an operation is carried out.
pub mod Word
pub mod Plan
