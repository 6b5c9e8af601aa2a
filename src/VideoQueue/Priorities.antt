-- ===== src/VideoQueue/Priorities.antt =====
-- Thresholds of priorities and the queue's currency: `updatePriority` and `setQueueCurrency` of
-- PostgresVideoQueue (apps/web/src/server/video-queue/postgres.ts) and
-- conversionFactorForCurrencyChange (packages/src/currency.ts). Amounts are in hundredths; a
-- quotient is exact until it is rounded to them.
pub mod Thresholds
use streambrew.Base.{
  label_check, ℕ, ◌+◌, ◌*◌, ◌/◌, max, Bool, true, false, not, ◌&&◌, ◌||◌, List, [], ◌∷◌, map, Text,
  text_eq, Option, none, some, anyb, filterb, head?, ◌==◌, ltb, if◌then◌else◌, Result, ok, err,
  ◌>>=◌, ◌>>◌, guard, or_fail,
}
use streambrew.VideoQueue.Queues.{
  trimmed, VideoQueueError, video_priority_not_found, video_priority_label_taken,
  invalid_video_priority_threshold, constraint_violated,
}
use streambrew.VideoQueue.Tables.{
  Video, Priority, QueueCurrency, rub, usd, eur, User, Db, owns_video, keeps_priority,
}
use streambrew.VideoQueue.Videos.{write_video, update_videos}

-- WHERE user_id = u AND video_priority_id = id
abbrev pub is_priority : ℕ → ℕ → Priority → Bool
is_priority u id p = p.user_id == u && p.video_priority_id == id

abbrev pub repriced : Text → ℕ → Priority → Priority
repriced label threshold p = record p {
  label = label;
  min_price_per_minute = if p.is_default then 0 else threshold;
}

-- `video_priority_check`
abbrev pub is_priced : Priority → Bool
is_priced p = if p.is_default then p.min_price_per_minute == 0 else ltb 0 p.min_price_per_minute

-- The CHECKs and the unique label. The row that comes back parses where the schema of the API has let
-- its label through.
unfoldable pub update_priority :
    ℕ → ℕ → Text → ℕ → List Priority → Result VideoQueueError (Priority × List Priority)
update_priority u id label threshold ps =
    or_fail (head? (filterb (is_priority u id) ps)) video_priority_not_found >>= λ p.
    guard (is_priced (repriced label threshold p)) invalid_video_priority_threshold
    >> (guard (label_check label) constraint_violated
        >> guard
            (not (
              anyb
                (λ q. (q.user_id == u && text_eq q.label label) && not (q.video_priority_id == id))
                ps))
            video_priority_label_taken
        >> ok (
          repriced (trimmed label) threshold p,
          map (λ q. if is_priority u id q then repriced label threshold q else q) ps,
        ))

abbrev pub rubles_per_unit : QueueCurrency → ℕ
rubles_per_unit rub = 1
rubles_per_unit usd = 90
rubles_per_unit eur = 100

abbrev pub currency_eq : QueueCurrency → QueueCurrency → Bool
currency_eq a b = rubles_per_unit a == rubles_per_unit b

-- The numerator and the denominator; `rate` is in hundredths.
unfoldable pub conversion_factor_for_currency_change : QueueCurrency → QueueCurrency → ℕ → ℕ × ℕ
conversion_factor_for_currency_change from to rate =
    if ltb (rubles_per_unit to) (rubles_per_unit from) then (rate, 100) else (100, rate)

-- `roundDiv`
unfoldable pub round_div : ℕ → ℕ → ℕ
round_div numerator denominator = (numerator + denominator / 2) / denominator

-- In hundredths.
unfoldable pub default_currency_change_rate : QueueCurrency → QueueCurrency → ℕ
default_currency_change_rate from to =
    let larger : QueueCurrency =
      (if ltb (rubles_per_unit to) (rubles_per_unit from) then from else to) in
    let smaller : QueueCurrency = if currency_eq larger from then to else from in
    round_div (rubles_per_unit larger) (rubles_per_unit smaller) * 100

-- round(amount * numerator / denominator, 2), with halves away from zero
unfoldable pub convert : ℕ → ℕ → ℕ → ℕ
convert numerator denominator amount = (2 * amount * numerator + denominator) / (2 * denominator)

unfoldable pub convert_priority : ℕ → ℕ → Priority → Priority
convert_priority numerator denominator p = record p {
  min_price_per_minute =
      if p.is_default then 0 else max (convert numerator denominator p.min_price_per_minute) 1;
}

abbrev pub is_amount : Option ℕ → Bool
is_amount none = false
is_amount (some _) = true

abbrev pub convert_amount : ℕ → ℕ → Video → Video
convert_amount numerator denominator v = record v {
  queue_amount = elim v.queue_amount [
    | none ↦ none
    | some a ↦ some (convert numerator denominator a)
  ];
}

abbrev pub currency_of : ℕ → List User → Option QueueCurrency
currency_of u [] = none
currency_of u (w ∷ ws) = if w.user_id == u then some w.queue_currency else currency_of u ws

unfoldable pub convert_db : ℕ → QueueCurrency → ℕ → ℕ → Db → Result VideoQueueError Db
convert_db u currency numerator denominator db =
    let priced : Db = record db {
      priorities =
          map (λ p. if p.user_id == u then convert_priority numerator denominator p else p)
            db.priorities;
    } in
    update_videos (λ v. is_amount v.queue_amount && owns_video db.donations u v)
      (λ v.
        write_video priced (keeps_priority true v (convert_amount numerator denominator v))
          constraint_violated (convert_amount numerator denominator v))
      db.videos
    >>= λ vs. ok (record priced {
      videos = vs;
      users =
          map (λ w. if w.user_id == u then record w { queue_currency = currency } else w) db.users;
    })

-- A user that is missing is an error of the schema's `parse`. The rate is above zero, as the schema of
-- the procedure demands (apps/web/src/server/api/trpc/video.ts).
unfoldable pub set_queue_currency :
    ℕ → QueueCurrency → ℕ → Db → Result VideoQueueError (QueueCurrency × Db)
set_queue_currency u currency rate db =
    or_fail (currency_of u db.users) constraint_violated >>= λ previous.
    if currency_eq previous currency
    then ok (previous, db)
    else (let (numerator, denominator) =
          conversion_factor_for_currency_change previous currency rate in
        convert_db u currency numerator denominator db >>= λ after. ok (currency, after))
