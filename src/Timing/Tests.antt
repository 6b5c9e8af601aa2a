-- ===== src/Timing/Tests.antt =====
-- Examples of the times (packages/src/video-timing.ts).
use streambrew.Base.{◌+◌, ◌*◌, ◌<◌, ◌≤◌, ◌≡◌, some, arith}
use streambrew.Timing.Format.{format_video_time, get_rounded_watch_duration_parts}
use streambrew.Timing.Rounding.{get_rounded_watch_duration_parts_lem}
use streambrew.Timing.Parse.{parse_video_time}
use streambrew.Timing.RoundTrip.{parse-format}

parse-format_example : parse_video_time (format_video_time 3_725) ≡ some 3_725
parse-format_example = parse-format 3_725 (omega arith)

get_rounded_watch_duration_parts_lem_example :
    let p = get_rounded_watch_duration_parts 5_430 in
    (p.minutes < 60)
    × (5_430 ≤ (p.hours * 60 + p.minutes) * 60 + 30)
    × ((p.hours * 60 + p.minutes) * 60 ≤ 5_430 + 30)
get_rounded_watch_duration_parts_lem_example = get_rounded_watch_duration_parts_lem 5_430
