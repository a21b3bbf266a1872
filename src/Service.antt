-- ===== src/Service.antt =====
-- internal/agenthost/changes.go: the change service, which stages, applies, reconciles and discards
-- changes over the store and an advertising backend.
pub mod Exec
pub mod Platform
pub mod Limits
pub mod Stage
pub mod Perform
pub mod Apply
pub mod Settle
pub mod Sending
pub mod Safety
pub mod Keep
pub mod Kinds
pub mod Stored
pub mod Requests
