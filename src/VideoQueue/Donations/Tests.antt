-- ===== src/VideoQueue/Donations/Tests.antt =====
-- Examples of the donations (`listDonationsPage` in apps/web/src/server/sensors/db/store.ts).
use streambrew.Base.{◌≡◌, refl, ℕ, [], ◌∷◌, map, Text, codes, none, some, text_eq}
use streambrew.VideoQueue.Tables.{Donation, Db}
use streambrew.VideoQueue.Pages.{get_pagination_window, total_pages_of}
use streambrew.VideoQueue.Shared.Tests.{db}
use streambrew.VideoQueue.Donations.{
  DonationInput, donation_rows, count_donations, videos_of, list_donations_page,
}

abbrev donation : ℕ → ℕ → Text → Donation
donation id occurred_at author = record {
  donation_id = id;
  source = codes "streamlabs";
  user_id = 7;
  author = some author;
  message = none;
  amount = codes "5";
  currency = codes "USD";
  occurred_at = occurred_at;
  videos_parsed_at = none;
}

abbrev donations : Db
donations = record db {
  donations =
      donation 1 10 (codes "ann") ∷ donation 2 30 (codes "bob") ∷ donation 3 20 (codes "ann") ∷ [];
}

abbrev input : DonationInput
input = record {
  page = 9;
  page_size = 25;
  query = codes "ann";
  occurred_after = none;
  donation_id = none;
  source = none;
}

newest_first :
    map (λ i. i.donation.donation_id) (list_donations_page text_eq donations 7 input).items
    ≡ 3 ∷ 1 ∷ []
unfolding list_donations_page donation_rows count_donations videos_of get_pagination_window
    total_pages_of
newest_first = refl

last_page : (list_donations_page text_eq donations 7 input).page ≡ 1
unfolding list_donations_page count_donations get_pagination_window total_pages_of
last_page = refl
