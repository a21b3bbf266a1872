-- ===== src/Sandbox.antt =====
-- internal/sandbox: the local backend.
pub mod Rules
pub mod Evaluate
pub mod Settle
pub mod Backend
pub mod Simulation
pub mod Bundle
pub mod Updates
