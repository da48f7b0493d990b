-- ===== src/Middleware.antt =====
-- The middleware subsystem (src/middleware): the request context, the chain and built-in middleware.
pub mod Context
pub mod Chain
pub mod Circuit
pub mod RateLimit
pub mod BasicAuth
pub mod Cors
pub mod Wrappers
