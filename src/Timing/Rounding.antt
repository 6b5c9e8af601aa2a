-- ===== src/Timing/Rounding.antt =====
-- Rounded durations (packages/src/video-timing.ts).
use streambrew.Base.{ℕ, ◌+◌, ◌*◌, ◌≤◌, ◌<◌, arith}
use streambrew.Timing.Format.{get_rounded_watch_duration_minutes, get_rounded_watch_duration_parts}

-- The hours and minutes of a duration are off by at most half a minute, and the minutes are below 60.
pub get_rounded_watch_duration_parts_lem :
    (total : ℕ)
    → let p = get_rounded_watch_duration_parts total in
      (p.minutes < 60)
      × (total ≤ (p.hours * 60 + p.minutes) * 60 + 30)
      × ((p.hours * 60 + p.minutes) * 60 ≤ total + 30)
unfolding get_rounded_watch_duration_parts get_rounded_watch_duration_minutes
get_rounded_watch_duration_parts_lem total = (omega arith, omega arith, omega arith)
