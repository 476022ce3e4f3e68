-- ===== src/Engine/Laws.antt =====
-- What single steps of the engine do to the state that the next ones read
-- (internal/implementation/orchestrator).
use eywa.Entities.Spirit.{Spirit}
