-- ===== src/VideoQueue/Views.antt =====
-- What the pages of videos show (apps/web/src/lib/group-videos-by-priority.ts,
-- apps/web/src/lib/shared-video-timing.ts and getPaginationItems in
-- apps/web/src/components/ui/page-pagination.tsx).
mod Tests
use streambrew.Base.{
  ℕ, zero, suc, ◌+◌, ◌-◌, Bool, true, false, not, ◌&&◌, List, [], ◌∷◌, ◌++◌, map, Text, Option,
  none, some, filterb, anyb, order_by, leb, ltb, ◌==◌, if◌then◌else◌,
}
use streambrew.VideoQueue.Tables.{option_eq}
use streambrew.Timing.Format.{format_video_time}

-- new Set(…), in the order of the first places
abbrev pub distinct : List ℕ → List ℕ
distinct [] = []
distinct (n ∷ ns) = n ∷ filterb (λ m. not (m == n)) (distinct ns)

abbrev pub given_ids : List (Option ℕ) → List ℕ
given_ids [] = []
given_ids (none ∷ ids) = given_ids ids
given_ids (some id ∷ ids) = id ∷ given_ids ids

pub record Grouped {ℓ} (Video : Type ℓ) : Type ℓ where
  pub groups : List (ℕ × List Video)
  pub unassigned_videos : List Video

abbrev pub is_unassigned : Option ℕ → Bool
is_unassigned none = true
is_unassigned (some id) = false

-- `priority` is a video's videoPriorityId.
unfoldable pub group_videos_by_priority {ℓ} :
    {Video : Type ℓ} → (Video → Option ℕ) → List Video → Grouped Video
group_videos_by_priority priority videos = record {
  groups =
      map (λ id. (id, filterb (λ v. option_eq (priority v) (some id)) videos))
        (distinct (given_ids (map priority videos)));
  unassigned_videos = filterb (λ v. is_unassigned (priority v)) videos;
}

pub record TimingParts : Type 0 where
  pub start_time : Option Text
  pub end_time : Option Text

abbrev pub end_part : Option ℕ → Option ℕ → Option Text
end_part none duration_seconds = none
end_part (some e) duration_seconds =
    if option_eq duration_seconds (some e) then none else some (format_video_time e)

unfoldable pub get_shared_video_timing_parts : ℕ → Option ℕ → Option ℕ → TimingParts
get_shared_video_timing_parts start_seconds end_seconds duration_seconds = record {
  start_time = if start_seconds == 0 then none else some (format_video_time start_seconds);
  end_time = end_part end_seconds duration_seconds;
}

pub data PaginationItem : Type 0 where
  page_number : ℕ → PaginationItem
  ellipsis : PaginationItem

abbrev pub count_up : ℕ → ℕ → List ℕ
count_up from zero = []
count_up from (suc n) = from ∷ count_up (from + 1) n

-- Between two pages that do not follow one another stands an ellipsis.
abbrev pub with_gaps : Option ℕ → List ℕ → List PaginationItem
with_gaps previous [] = []
with_gaps none (p ∷ ps) = page_number p ∷ with_gaps (some p) ps
with_gaps (some before) (p ∷ ps) =
    let rest = with_gaps (some p) ps in
    if ltb 1 (p - before) then ellipsis ∷ page_number p ∷ rest else page_number p ∷ rest

-- Pages are from 1 on. `page - 1` is 0 for the first, which is left out with what is past the end.
unfoldable pub get_pagination_items : ℕ → ℕ → List PaginationItem
get_pagination_items page total_pages =
    if leb total_pages 7
    then map page_number (count_up 1 total_pages)
    else with_gaps none (
        order_by (λ p. p)
          (filterb (λ p. leb 1 p && leb p total_pages)
            (distinct (1 ∷ (page - 1) ∷ page ∷ (page + 1) ∷ total_pages ∷ []))))
