-- ===== src/Tests.antt =====
-- Runs of the model on concrete inputs.
pub mod Fixtures
pub mod Engine
pub mod Steps
pub mod Reasoning
pub mod Loop
pub mod Summon
pub mod Compression
pub mod Chunking
pub mod Stores
pub mod Entities
