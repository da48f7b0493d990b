-- ===== src/Core.antt =====
-- The core (src/core): background tasks, blocking calls in chunks, the reload of the process, and the
-- handling of a request.
pub mod BlockingExecutor
pub mod Reload
pub mod Tasks
pub mod Worker
