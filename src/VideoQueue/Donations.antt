-- ===== src/VideoQueue/Donations.antt =====
-- The page of a streamer's donations (`listDonationsPage` in
-- apps/web/src/server/sensors/db/store.ts). ILIKE is a parameter.
pub mod Whole
mod Tests
use streambrew.Base.{
  ℕ, Bool, true, false, ◌&&◌, ◌||◌, List, [], ◌∷◌, ◌++◌, map, Text, text_eq, Option, none, some,
  filterb, head?, order_by, length, leb, ◌==◌,
}
use streambrew.VideoQueue.Tables.{Video, Donation, User, QueueCurrency, Db, option_eq}
use streambrew.VideoQueue.Pages.{get_pagination_window}
use streambrew.VideoQueue.Listing.{priority_of, is_before, sort, window_of}

pub record DonationInput : Type 0 where
  pub page : ℕ
  pub page_size : ℕ
  pub query : Text
  pub occurred_after : Option ℕ
  pub donation_id : Option ℕ
  pub source : Option Text

abbrev pub or_empty : Option Text → Text
or_empty none = []
or_empty (some t) = t

abbrev pub is_focused : Option ℕ → Donation → Bool
is_focused none d = true
is_focused (some id) d = d.donation_id == id

abbrev pub is_after : Option ℕ → Donation → Bool
is_after none d = true
is_after (some t) d = leb t d.occurred_at

abbrev pub is_from : Option Text → Donation → Bool
is_from none d = true
is_from (some source) d = text_eq d.source source

-- `ilike` is whether a text contains the query in the sense of ILIKE '%query%'.
abbrev pub is_matched : (Text → Text → Bool) → Text → Donation → Bool
is_matched ilike query d =
    text_eq query [] || (ilike (or_empty d.author) query || ilike (or_empty d.message) query)

abbrev pub is_wanted : (Text → Text → Bool) → ℕ → DonationInput → Donation → Bool
is_wanted ilike u input d =
    d.user_id == u
    && (is_focused input.donation_id d
        && (is_after input.occurred_after d
            && (is_from input.source d && is_matched ilike input.query d)))

-- ORDER BY occurred_at DESC, donation_id DESC
abbrev pub goes_first : Donation → Donation → Bool
goes_first d e = is_before (d.occurred_at ∷ d.donation_id ∷ []) (e.occurred_at ∷ e.donation_id ∷ [])

unfoldable pub donation_rows : (Text → Text → Bool) → Db → ℕ → DonationInput → List Donation
donation_rows ilike db u input = sort goes_first (filterb (is_wanted ilike u input) db.donations)

unfoldable pub count_donations : (Text → Text → Bool) → Db → ℕ → DonationInput → ℕ
count_donations ilike db u input = length (filterb (is_wanted ilike u input) db.donations)

-- A video of a donation, with the currency of its user's queue.
pub record DonationVideo : Type 0 where
  pub video : Video
  pub queue_currency : Option QueueCurrency
  pub priority_label : Option Text

abbrev pub currency_of_user : List User → ℕ → Option QueueCurrency
currency_of_user users u = elim (head? (filterb (λ w. w.user_id == u) users)) [
  | some w ↦ some w.queue_currency
  | none ↦ none
]

-- The videos of a donation in the order of their numbers.
unfoldable pub videos_of : Db → Donation → List DonationVideo
videos_of db d =
    map
      (λ v. record {
        video = v;
        queue_currency = currency_of_user db.users d.user_id;
        priority_label = elim (priority_of db.priorities v.video_priority_id) [
          | some p ↦ some p.label
          | none ↦ none
        ];
      })
      (order_by (λ v. v.video_id)
        (filterb (λ v. option_eq v.donation_id (some d.donation_id)) db.videos))

pub record DonationItem : Type 0 where
  pub donation : Donation
  pub videos : List DonationVideo

pub record DonationsPage : Type 0 where
  pub items : List DonationItem
  pub page : ℕ
  pub page_size : ℕ
  pub total : ℕ
  pub total_pages : ℕ

abbrev pub donation_item : Db → Donation → DonationItem
donation_item db d = record { donation = d; videos = videos_of db d }

unfoldable pub list_donations_page : (Text → Text → Bool) → Db → ℕ → DonationInput → DonationsPage
list_donations_page ilike db u input =
    let total : ℕ = count_donations ilike db u input in
    let window = get_pagination_window total input.page input.page_size in
    record {
      items =
          map (donation_item db)
            (window_of window.offset input.page_size (donation_rows ilike db u input));
      page = window.page;
      page_size = input.page_size;
      total = total;
      total_pages = window.total_pages;
    }
