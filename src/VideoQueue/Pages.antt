-- ===== src/VideoQueue/Pages.antt =====
-- `getPaginationWindow` (apps/web/src/server/pagination.ts), for the queue's pages.
use streambrew.Base.{ℕ, ◌+◌, ◌-◌, ◌*◌, ◌/◌, ◌≤◌, ◌<◌, min, max, arith}

pub record Window : Type 0 where
  pub offset : ℕ
  pub page : ℕ
  pub total_pages : ℕ

-- Math.ceil(total / pageSize)
unfoldable pub total_pages_of : ℕ → ℕ → ℕ
total_pages_of total page_size = (total + page_size - 1) / page_size

unfoldable pub get_pagination_window : ℕ → ℕ → ℕ → Window
get_pagination_window total requested_page page_size =
    let total_pages : ℕ = total_pages_of total page_size in
    let page : ℕ = min requested_page (max total_pages 1) in
    record { offset = (page - 1) * page_size; page = page; total_pages = total_pages }

-- Where there are items, and a page from the first on is asked for, the page of 25 that is shown is
-- one of the pages, its offset is before the end of the items, and the pages hold them all.
pub get_pagination_window_lem :
    (total requested_page : ℕ)
    → 1 ≤ requested_page
    → 1 ≤ total
    → let w = get_pagination_window total requested_page 25 in
      (1 ≤ w.page) × (w.page ≤ w.total_pages) × (w.offset < total) × (total ≤ w.total_pages * 25)
unfolding get_pagination_window total_pages_of
get_pagination_window_lem total requested_page h k =
    (omega arith, omega arith, omega arith, omega arith)
