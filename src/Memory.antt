-- ===== src/Memory.antt =====
-- Memory reuse (src/memory): the pool of objects.
pub mod Pool
