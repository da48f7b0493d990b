-- ===== src/Utils/Pagination/Tests.antt =====
-- Tests of the pagination, and the theorems at concrete inputs.
use hypern.Utils.Pagination.Cursors.{
  to_be_bytes, encode_cursor, decode_cursor, decode_cursor-encode_cursor,
}
use hypern.Prelude.{
  ℕ, ◌≤◌, ◌<◌, min, String, ◌≡◌, refl, ◌↔◌, true, false, Option, none, some, List, arith,
  if◌then◌else◌, ◌==◌, string_eq, nat_eq,
}
use hypern.Utils.Pagination.{paginate}
use hypern.Utils.Pagination.Pages.{paginate_lem}

second_test : paginate 95 2 10 ≡ record {
  total = 95;
  page = 2;
  per_page = 10;
  total_pages = 10;
  has_next = true;
  has_prev = true;
  offset = 10;
  from_item = 11;
  to_item = 20;
}
unfolding paginate
second_test = refl

last_test : ((paginate 95 99 10).from_item ≡ 91) × ((paginate 95 99 10).to_item ≡ 95)
unfolding paginate
last_test = (refl, refl)

paginate_lem_example :
    (1 ≤ 10)
    × (10 ≤ 10)
    × ◌≡◌ {A = ℕ} 91 91
    × (91 ≤ 95)
    × ◌≡◌ {A = ℕ} 95 (min 100 95)
    × ((false ≡ true) ↔ (95 < 95))
unfolding paginate
paginate_lem_example = paginate_lem 95 99 10 (omega arith) (omega arith)

-- The base64 text of the eight bytes of 40.
abbrev forty : List ℕ → String
forty bs = "AAAAAAAAACg"

abbrev from_forty : String → Option (List ℕ)
from_forty s = if s == "AAAAAAAAACg" then some (to_be_bytes 40) else none

decode_cursor-encode_cursor_test :
    decode_cursor forty from_forty (encode_cursor forty from_forty 40) ≡ 40
decode_cursor-encode_cursor_test =
    decode_cursor-encode_cursor forty from_forty 40 refl (omega arith)

bad_cursor_test : decode_cursor forty from_forty "?" ≡ 0
unfolding decode_cursor
bad_cursor_test = refl
