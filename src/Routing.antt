-- ===== src/Routing.antt =====
-- The routing subsystem (src/routing): routes, the router and the cache of matched routes.
pub mod Cache
pub mod Route
pub mod Router
