-- ===== src/VideoQueue/Views/Tests.antt =====
-- Examples of what the pages of videos show (apps/web/src/lib/group-videos-by-priority.ts,
-- apps/web/src/components/ui/page-pagination.tsx).
use streambrew.Base.{◌≡◌, refl, ℕ, [], ◌∷◌, Option, none, some}
use streambrew.VideoQueue.Views.{
  group_videos_by_priority, get_pagination_items, page_number, ellipsis,
  get_shared_video_timing_parts,
}

priorities :
    group_videos_by_priority (λ (v : Option ℕ). v) (some 2 ∷ none ∷ some 1 ∷ some 2 ∷ []) ≡ record {
      groups = (2, some 2 ∷ some 2 ∷ []) ∷ (1, some 1 ∷ []) ∷ [];
      unassigned_videos = none ∷ [];
    }
unfolding group_videos_by_priority
priorities = refl

middle :
    get_pagination_items 5 9
    ≡ page_number 1
      ∷ ellipsis
      ∷ page_number 4
      ∷ page_number 5
      ∷ page_number 6
      ∷ ellipsis
      ∷ page_number 9
      ∷ []
unfolding get_pagination_items
middle = refl

first : get_pagination_items 1 9 ≡ page_number 1 ∷ page_number 2 ∷ ellipsis ∷ page_number 9 ∷ []
unfolding get_pagination_items
first = refl

whole_video :
    get_shared_video_timing_parts 0 (some 90) (some 90)
    ≡ record { start_time = none; end_time = none }
unfolding get_shared_video_timing_parts
whole_video = refl
