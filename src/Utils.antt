-- ===== src/Utils.antt =====
-- The utilities (src/utils): pagination.
pub mod Pagination
