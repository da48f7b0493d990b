-- ===== src/FastPath.antt =====
-- The fast path (src/fast_path): the cache of JSON responses and the files served from a directory.
pub mod JsonCache
pub mod StaticFiles
