-- ===== src/Utils/Pagination.antt =====
-- src/utils/pagination.rs, `paginate`. Sums and products of `u64` wrap at 2 ^ 64, as in a build
-- without overflow checks.
mod Pages
mod Cursors
mod Tests
use hypern.Prelude.{ℕ, ◌+◌, ◌-◌, ◌*◌, ◌/◌, ◌%◌, min, Bool, ltb, eqb, if◌then◌else◌}

pub record PageInfo : Type 0 where
  pub total : ℕ
  pub page : ℕ
  pub per_page : ℕ
  pub total_pages : ℕ
  pub has_next : Bool
  pub has_prev : Bool
  pub offset : ℕ
  pub from_item : ℕ
  pub to_item : ℕ

abbrev pub wrap : ℕ → ℕ
wrap n = n % 18446744073709551616

-- Ord::clamp
abbrev pub clamp : ℕ → ℕ → ℕ → ℕ
clamp lo hi n = if ltb n lo then lo else (if ltb hi n then hi else n)

abbrev pub total_pages_of : ℕ → ℕ → ℕ
total_pages_of total per_page = if eqb total 0 then 1 else wrap (total + per_page - 1) / per_page

unfoldable pub paginate : ℕ → ℕ → ℕ → PageInfo
paginate total page per_page =
    let per_page = clamp 1 10000 per_page in
    let total_pages = total_pages_of total per_page in
    let page = clamp 1 total_pages page in
    let offset = wrap ((page - 1) * per_page) in
    let empty = eqb total 0 in
    record {
      total = total;
      page = page;
      per_page = per_page;
      total_pages = total_pages;
      has_next = ltb page total_pages;
      has_prev = ltb 1 page;
      offset = offset;
      from_item = if empty then 0 else wrap (offset + 1);
      to_item = if empty then 0 else min (wrap (offset + per_page)) total;
    }
