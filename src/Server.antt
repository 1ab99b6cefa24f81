-- ===== src/Server.antt =====
-- server/game: the authoritative game server.
pub mod AiPlan
pub mod StrictTask
