-- ===== src/Reasoning.antt =====
-- Policies of the reasoning service (internal/implementation/orchestrator).
pub mod Oracle
pub mod Stall
pub mod Confidence
pub mod Transfer
pub mod Plan
pub mod Dispatch
pub mod Handoff
pub mod Executor
pub mod Turn
pub mod Calls
pub mod Answer
pub mod Gates
pub mod Durable
pub mod Setup
pub mod Iteration
pub mod Loop
pub mod Frame
pub mod Bounds
pub mod Novel
pub mod Summon
pub mod Limits
pub mod Shaping
pub mod Stream
pub mod Liveness
pub mod Compression
