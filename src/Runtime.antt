-- ===== src/Runtime.antt =====
-- internal/runtime: the models that a session may select. The bridges to the model processes are
-- not modelled.
pub mod Patterns
pub mod Models
