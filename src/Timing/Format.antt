-- ===== src/Timing/Format.antt =====
-- The parts of a time and its text (packages/src/video-timing.ts). Seconds are whole and not
-- negative, as in the columns that hold them. Digits are printed by division, as `String` prints.
use streambrew.Base.{ℕ, zero, suc, ◌+◌, ◌-◌, ◌/◌, ◌%◌, [], ◌∷◌, ◌++◌, Text, ltb, if◌then◌else◌}

pub record Parts : Type 0 where
  pub hours : ℕ
  pub minutes : ℕ
  pub seconds : ℕ

unfoldable pub get_video_time_parts : ℕ → Parts
get_video_time_parts total = record {
  hours = total / 3600;
  minutes = total % 3600 / 60;
  seconds = total % 60;
}

unfoldable pub get_watch_duration_seconds : ℕ → ℕ → ℕ
get_watch_duration_seconds start_seconds end_seconds = end_seconds - start_seconds

-- Math.round of a number that is not negative
unfoldable pub get_rounded_watch_duration_minutes : ℕ → ℕ
get_rounded_watch_duration_minutes total = (total + 30) / 60

pub record HourMinutes : Type 0 where
  pub hours : ℕ
  pub minutes : ℕ

unfoldable pub get_rounded_watch_duration_parts : ℕ → HourMinutes
unfolding get_rounded_watch_duration_minutes
get_rounded_watch_duration_parts total =
    let minutes : ℕ = get_rounded_watch_duration_minutes total in
    record { hours = minutes / 60; minutes = minutes % 60 }

-- The decimal digits of a number, the fuel being at least the number of digits.
abbrev pub digits_fuel : ℕ → ℕ → Text → Text
digits_fuel zero n acc = acc
digits_fuel (suc f) n acc =
    let more = digits_fuel f (n / 10) ((b'0' + n % 10) ∷ acc) in
    if ltb n 10 then (b'0' + n) ∷ acc else more

-- String(n)
unfoldable pub to_string : ℕ → Text
to_string n = digits_fuel (suc n) n []

-- String(n).padStart(2, "0")
abbrev pub pad_start_2 : Text → Text
pad_start_2 [] = b'0' ∷ b'0' ∷ []
pad_start_2 (c ∷ []) = b'0' ∷ c ∷ []
pad_start_2 (c ∷ d ∷ s) = c ∷ d ∷ s

abbrev pub format_parts : Parts → Text
format_parts p =
    if ltb 0 p.hours
    then to_string p.hours
      ++ b':' ∷ (pad_start_2 (to_string p.minutes) ++ b':' ∷ pad_start_2 (to_string p.seconds))
    else to_string p.minutes ++ b':' ∷ pad_start_2 (to_string p.seconds)

unfoldable pub format_video_time : ℕ → Text
unfolding get_video_time_parts to_string
format_video_time total = format_parts (get_video_time_parts total)
