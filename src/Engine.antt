-- ===== src/Engine.antt =====
-- The runtime engine, Weave (internal/implementation/orchestrator).
pub mod State
pub mod Admission
pub mod Filter
pub mod Routing
pub mod Session
pub mod Condition
pub mod Budget
pub mod Answer
pub mod Run
pub mod Audit
pub mod Template
pub mod Laws
pub mod Sessionless
pub mod Kept
pub mod Refusal
pub mod Held
pub mod Delivery
pub mod Locks
