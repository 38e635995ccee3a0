-- ===== src/Agents.antt =====
-- agents/: the clients that the workers share.
pub mod RateLimit
