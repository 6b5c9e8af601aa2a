-- ===== src/VideoQueue/Donations/Whole.antt =====
-- The pages of the donations together (`listDonationsPage` in
-- apps/web/src/server/sensors/db/store.ts).
use streambrew.Base.{
  ℕ, suc, ◌*◌, ◌≤◌, ◌≡◌, ◌∙◌, sym, ap, Bool, List, [], ◌∷◌, map, Text, arith, length, length-map,
  filterb,
}
use streambrew.VideoQueue.Tables.{Donation, Db}
use streambrew.VideoQueue.Pages.{total_pages_of, get_pagination_window}
use streambrew.VideoQueue.Listing.{window_of}
use streambrew.VideoQueue.Listing.Sorted.{
  is_before_total, InOrder, sort-InOrder, length-sort, up_to, take_all, up_to-window_of,
  map-window_of,
}
use streambrew.VideoQueue.Shared.Whole.{window-offset}
use streambrew.VideoQueue.Donations.{
  DonationInput, is_wanted, goes_first, donation_rows, count_donations, donation_item,
  list_donations_page,
}

abbrev at_page : DonationInput → ℕ → DonationInput
at_page input k = record input { page = k; page_size = 25 }

page-window_of :
    (ilike : Text → Text → Bool) (db : Db) (u : ℕ) (input : DonationInput) (k : ℕ)
    → suc k ≤ total_pages_of (count_donations ilike db u input) 25
    → (list_donations_page ilike db u (at_page input (suc k))).items
      ≡ window_of (k * 25) 25 (map (donation_item db) (donation_rows ilike db u input))
unfolding list_donations_page get_pagination_window count_donations donation_rows
page-window_of ilike db u input k l =
    let total : ℕ = count_donations ilike db u input in
    let all = donation_rows ilike db u input in
    ap (λ offset. map (donation_item db) (window_of offset 25 all)) (window-offset total k l)
    ∙ map-window_of (donation_item db) (k * 25) 25 all

-- The pages of 25, from the first to the last, give together every donation that is asked for, the
-- newest first and each with its videos.
pub list_donations_page-whole :
    (ilike : Text → Text → Bool) (db : Db) (u : ℕ) (input : DonationInput)
    → let all : List Donation = donation_rows ilike db u input in
      (up_to
          (λ k. (list_donations_page ilike db u (at_page input k)).items)
          (total_pages_of (count_donations ilike db u input) 25)
        ≡ map (donation_item db) all)
      × (count_donations ilike db u input ≡ length all)
      × InOrder goes_first all
unfolding count_donations donation_rows total_pages_of
list_donations_page-whole ilike db u input =
    let wanted = filterb (is_wanted ilike u input) db.donations in
    let all = donation_rows ilike db u input in
    let n : ℕ = total_pages_of (count_donations ilike db u input) 25 in
    let items = map (donation_item db) all in
    let counted = length-sort goes_first wanted in
    (
      up_to-window_of 25 items (λ k. (list_donations_page ilike db u (at_page input k)).items) n
            (λ k l. page-window_of ilike db u input k l)
          ∙ take_all (n * 25) items (ground (arith, length-map (donation_item db) all, counted)),
      sym counted,
      sort-InOrder goes_first
          (λ d e.
            is_before_total (d.occurred_at ∷ d.donation_id ∷ [])
              (e.occurred_at ∷ e.donation_id ∷ []))
          wanted,
    )
