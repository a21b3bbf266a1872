-- ===== src/Store.antt =====
-- internal/store: the public host state in SQLite. A table is the list of its rows in insertion
-- order, and a statement has the effect that its SQL text asks for. Whether a statement fails for
-- a reason of the database's own is an argument of each operation (`Faults`).
pub mod Session
pub mod Tables
pub mod Leases
pub mod Changes
pub mod OAuth
pub mod MemoryText
pub mod Memories
pub mod Conversation
