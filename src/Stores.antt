-- ===== src/Stores.antt =====
-- The in-process adapters of the engine's ports (internal/implementation/orchestrator): each method
-- runs under a mutex, so it is one atomic step on the store.
pub mod Bond
pub mod Idempotency
pub mod Handoff
