-- ===== src/Utils/Pagination/Pages.antt =====
-- The pages divide the items.
use native.Mathlib.Nat.{le-div_iff_mul-le, add-mul, suc-mul}
use hypern.Prelude.{
  ℕ, zero, suc, ◌+◌, ◌-◌, ◌*◌, ◌/◌, ◌≤◌, ◌<◌, min, ◌≡◌, sym, ap, ◌∙◌, subst, ◌↔◌, true, false,
  arith, ltb, eqb, if◌then◌else◌,
}
use hypern.Utils.Pagination.{wrap, clamp, total_pages_of, paginate}

-- The page size that `paginate` uses.
abbrev pub size_of : ℕ → ℕ
size_of per_page = clamp 1 10000 per_page

size_of-pos : (n : ℕ) → (1 ≤ size_of n) × (size_of n ≤ 10000)
size_of-pos n = ground arith

-- A page is within the last one exactly if it starts before the end of the items.
total_pages_of_iff :
    (total size k : ℕ)
    → 1 ≤ total
    → 1 ≤ size
    → total + size < 18446744073709551616
    → (k + 1 ≤ total_pages_of total size) ↔ (k * size < total)
total_pages_of_iff total size k t s b =
    let filled : eqb total 0 ≡ false = ground arith in
    let small : wrap (total + size - 1) ≡ total + size - 1 = omega arith in
    let pages : total_pages_of total size ≡ (total + size - 1) / size =
      ap (λ e. if e then 1 else wrap (total + size - 1) / size) filled ∙ ap (λ x. x / size) small in
    let next : (k + 1) * size ≡ k * size + size =
      add-mul k 1 size ∙ ap (λ x. k * size + x) (omega arith) in
    let within = le-div_iff_mul-le {k = size} {x = k + 1} {y = total + size - 1} (omega arith) in
    (
      λ h. omega (arith, next, within.0 (subst (λ z. k + 1 ≤ z) pages h)),
      λ h. subst (λ z. k + 1 ≤ z) (sym pages) (within.1 (omega (arith, next))),
    )

clamp-bounds : (d page : ℕ) → 1 ≤ d → (1 ≤ clamp 1 d page) × (clamp 1 d page ≤ d)
clamp-bounds d page h = ground arith

paginate-offset :
    (total page per_page : ℕ)
    → 1 ≤ total
    → total + 10000 < 18446744073709551616
    → let p = paginate total page per_page in
      (1 ≤ p.page)
      × (p.page ≤ p.total_pages)
      × (p.offset ≡ (p.page - 1) * p.per_page)
      × (p.offset < total)
unfolding paginate
paginate-offset total page per_page t b =
    let size = size_of per_page in
    let d = total_pages_of total size in
    let sized = size_of-pos per_page in
    let some_page =
      (total_pages_of_iff total size 0 t sized.0 (omega (arith, sized.1))).1 (omega arith) in
    let (low, high) = clamp-bounds d page (omega (arith, some_page)) in
    let k = clamp 1 d page - 1 in
    let starts =
      (total_pages_of_iff total size k t sized.0 (omega (arith, sized.1))).0
        (omega (arith, low, high)) in
    let exact : wrap (k * size) ≡ k * size = omega (arith, starts, b) in
    (low, high, exact, omega (arith, exact, starts))

pred_mul : (k size : ℕ) → 1 ≤ k → k * size ≡ (k - 1) * size + size
pred_mul zero size h = absurd (omega arith)
pred_mul (suc n) size h = suc-mul n size ∙ ap (λ x. x * size + size) (omega arith)

ltb-lt : (a b : ℕ) → ltb a b ≡ true → a + 1 ≤ b
ltb-lt a b h = ground arith

ltb_of_lt : (a b : ℕ) → a + 1 ≤ b → ltb a b ≡ true
ltb_of_lt a b h = ground arith

-- The items of a page that starts at `offset`.
page_items :
    (total k offset size d : ℕ)
    → 1 ≤ size
    → size ≤ 10000
    → total + 10000 < 18446744073709551616
    → offset < total
    → (k + 1 ≤ d → offset + size < total)
    → (offset + size < total → k + 1 ≤ d)
    → let from_item = if eqb total 0 then 0 else wrap (offset + 1) in
      let to_item = if eqb total 0 then 0 else min (wrap (offset + size)) total in
      (from_item ≡ offset + 1)
      × (from_item ≤ to_item)
      × (to_item ≡ min (offset + size) total)
      × ((ltb k d ≡ true) ↔ (to_item < total))
page_items total k offset size d s s' b o next back =
    let filled : eqb total 0 ≡ false = ground arith in
    let first : (if eqb total 0 then 0 else wrap (offset + 1)) ≡ offset + 1 =
      ap (λ e. if e then 0 else wrap (offset + 1)) filled ∙ omega arith in
    let last : (if eqb total 0 then 0 else min (wrap (offset + size)) total)
        ≡ min (offset + size) total =
      ap (λ e. if e then 0 else min (wrap (offset + size)) total) filled
      ∙ ap (λ x. min x total) (omega arith) in
    (
      first,
      omega (arith, first, last),
      last,
      (
        λ h. omega (arith, last, next (ltb-lt k d h)),
        λ h. ltb_of_lt k d (back (omega (arith, last, h))),
      ),
    )

-- With at least one item and a total that is not within ten thousand of 2 ^ 64: the page is one of
-- the pages; it has at least one item, starts after its offset, and ends after a whole page or at the
-- end of the items, whichever comes first; and there is a next page exactly if this one ends before
-- the items do.
pub paginate_lem :
    (total page per_page : ℕ)
    → 1 ≤ total
    → total + 10000 < 18446744073709551616
    → let p = paginate total page per_page in
      (1 ≤ p.page)
      × (p.page ≤ p.total_pages)
      × (p.from_item ≡ p.offset + 1)
      × (p.from_item ≤ p.to_item)
      × (p.to_item ≡ min (p.offset + p.per_page) total)
      × ((p.has_next ≡ true) ↔ (p.to_item < total))
unfolding paginate
paginate_lem total page per_page t b =
    let (low, high, exact, starts) = paginate-offset total page per_page t b in
    let size = size_of per_page in
    let sized = size_of-pos per_page in
    let d = total_pages_of total size in
    let k = clamp 1 d page in
    let next = total_pages_of_iff total size k t sized.0 (omega (arith, sized.1)) in
    let whole = pred_mul k size low in
    let items =
      page_items total k (wrap ((k - 1) * size)) size d sized.0 sized.1 b starts
        (λ h. omega (arith, whole, exact, next.0 h))
        (λ h. next.1 (omega (arith, whole, exact, h))) in
    (low, high, items.0, items.1, items.2, items.3)

clamp_within : (d n : ℕ) → n ≤ d → 1 ≤ n → clamp 1 d n ≡ n
clamp_within d n h k = ground arith

-- With at least one item and a total that is not within ten thousand of 2 ^ 64: where a page has a
-- next one, the next page starts with the item after this page's last.
pub paginate_next :
    (total page per_page : ℕ)
    → 1 ≤ total
    → total + 10000 < 18446744073709551616
    → (paginate total page per_page).has_next ≡ true
    → (paginate total ((paginate total page per_page).page + 1) per_page).from_item
      ≡ (paginate total page per_page).to_item + 1
unfolding paginate
paginate_next total page per_page t b h =
    let (low, high, from, nonempty, last, more) = paginate_lem total page per_page t b in
    let (low', high', from', nonempty', last', more') =
      paginate_lem total ((paginate total page per_page).page + 1) per_page t b in
    let (_, _, exact, _) = paginate-offset total page per_page t b in
    let (_, _, exact', _) =
      paginate-offset total ((paginate total page per_page).page + 1) per_page t b in
    let size = size_of per_page in
    let d = total_pages_of total size in
    let k = clamp 1 d page in
    let turned : clamp 1 d (k + 1) ≡ k + 1 = clamp_within d (k + 1) (ltb-lt k d h) (omega arith) in
    let start : (clamp 1 d (k + 1) - 1) * size ≡ k * size =
      ap (λ x. x * size) (omega (arith, turned)) in
    omega (arith, from', exact', start, pred_mul k size low, exact, last, more.0 h)
