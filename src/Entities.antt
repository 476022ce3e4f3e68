-- ===== src/Entities.antt =====
-- The entities of the domain layer (internal/domain/entities).
pub mod Keys
pub mod Value
pub mod Pulse
pub mod Link
pub mod Policies
pub mod Spirit
pub mod Memory
pub mod Response
