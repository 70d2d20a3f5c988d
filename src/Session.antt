-- ===== src/Session.antt =====
-- src/xrd/session: the pool of idle sessions and the router over it.
pub mod World
pub mod Identity
pub mod Pool
pub mod Router
