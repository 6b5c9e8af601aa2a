-- ===== src/VideoQueue/Priorities/Thresholds.antt =====
-- The thresholds of priorities under a change of price or of currency
-- (apps/web/src/server/video-queue/postgres.ts, packages/src/currency.ts).
use streambrew.Base.{
  ℕ, ◌≡◌, refl, ap, subst, Bool, true, false, ◌&&◌, List, [], ◌∷◌, map, Option, none, some, arith,
  All, ◌==◌, ltb, if◌then◌else◌, Result, ok, err, ◌>>=◌, or_fail, >>=-eq-ok,
}
use streambrew.VideoQueue.Queues.{VideoQueueError, constraint_violated}
use streambrew.VideoQueue.Tables.{
  Priority, QueueCurrency, rub, usd, eur, Db, owns_video, keeps_priority,
}
use streambrew.VideoQueue.Videos.{write_video, update_videos}
use streambrew.VideoQueue.Priorities.{
  is_priced, convert, convert_priority, convert_amount, is_amount, convert_db, set_queue_currency,
  rubles_per_unit, currency_eq, currency_of, conversion_factor_for_currency_change,
  default_currency_change_rate, round_div,
}

-- `video_priority_check` on every row.
pub record IsPriced (db : Db) : Type 0 where
  pub priorities : All (λ p. is_priced p ≡ true) db.priorities

converted-IsPriced :
    (u n d : ℕ) (ps : List Priority)
    → All (λ p. is_priced p ≡ true) ps
    → All
        (λ p. is_priced p ≡ true)
        (map (λ p. if p.user_id == u then convert_priority n d p else p) ps)
unfolding convert_priority
converted-IsPriced u n d [] h = tt
converted-IsPriced u n d (p ∷ ps) h = (ground (arith, h.0), converted-IsPriced u n d ps h.1)

convert_db-IsPriced :
    (u : ℕ) (to : QueueCurrency) (n d : ℕ) (db after : Db)
    → IsPriced db
    → convert_db u to n d db ≡ ok after
    → IsPriced after
unfolding convert_db
convert_db-IsPriced u to n d db after h e =
    let g : Priority → Priority = λ p. if p.user_id == u then convert_priority n d p else p in
    let priced : Db = record db { priorities = map g db.priorities } in
    let (vs, w, e1) =
      >>=-eq-ok
        (update_videos (λ v. is_amount v.queue_amount && owns_video db.donations u v)
          (λ v.
            write_video priced (keeps_priority true v (convert_amount n d v)) constraint_violated
              (convert_amount n d v))
          db.videos)
        _ e in
    let is : map g db.priorities ≡ after.priorities =
      ap_priorities
        {x = record priced {
          videos = vs;
          users =
              map (λ w. if w.user_id == u then record w { queue_currency = to } else w) db.users;
        }}
        {y = after} (ground (arith, e1)) in
    record {
      priorities =
          subst (All (λ p. is_priced p ≡ true)) is
            (converted-IsPriced u n d db.priorities h.priorities);
    }
  where
    ap_priorities : {x y : Db} → x ≡ y → x.priorities ≡ y.priorities
    ap_priorities q = ap (λ z. z.priorities) q

either-IsPriced :
    (same : Bool) (from to : QueueCurrency) (r : Result VideoQueueError Db) (db : Db)
    (x : QueueCurrency × Db)
    → IsPriced db
    → ((a : Db) → r ≡ ok a → IsPriced a)
    → (if same then ok (from, db) else (r >>= λ a. ok (to, a))) ≡ ok x
    → IsPriced x.1
either-IsPriced true from to r db x h k e =
    subst (λ (y : QueueCurrency × Db). IsPriced y.1) {x = (from, db)} {y = x} (ground (arith, e)) h
either-IsPriced false from to (err y) db x h k e = absurd cc
either-IsPriced false from to (ok a) db x h k e =
    subst (λ (y : QueueCurrency × Db). IsPriced y.1) {x = (to, a)} {y = x} (ground (arith, e))
      (k a refl)

-- A change of the queue's currency that succeeds keeps every priority priced as the table's check
-- wants it, whatever the rate: a default one at zero, and any other above zero.
pub set_queue_currency-IsPriced :
    (u : ℕ) (to : QueueCurrency) (rate : ℕ) (db : Db) (x : QueueCurrency × Db)
    → IsPriced db
    → set_queue_currency u to rate db ≡ ok x
    → IsPriced x.1
unfolding set_queue_currency
set_queue_currency-IsPriced u to rate db x h e = changed (currency_of u db.users) e
  where
    changed :
        (previous : Option QueueCurrency)
        → (or_fail previous constraint_violated >>= λ from.
            if currency_eq from to
            then ok (from, db)
            else (let (numerator, denominator) =
                  conversion_factor_for_currency_change from to rate in
                convert_db u to numerator denominator db >>= λ after. ok (to, after)))
          ≡ ok x
        → IsPriced x.1
    changed none f = absurd cc
    changed (some from) f =
        either-IsPriced (currency_eq from to) from to
          (convert_db u to (conversion_factor_for_currency_change from to rate).0
            (conversion_factor_for_currency_change from to rate).1 db)
          db x h
          (λ a.
            convert_db-IsPriced u to (conversion_factor_for_currency_change from to rate).0
              (conversion_factor_for_currency_change from to rate).1 db a h)
          f

-- At the default rate an amount that is converted from the larger currency to the smaller and back
-- is what it was.
pub there_and_back :
    (from to : QueueCurrency) (amount : ℕ)
    → ltb (rubles_per_unit to) (rubles_per_unit from) ≡ true
    → let rate = default_currency_change_rate from to in
      let there = conversion_factor_for_currency_change from to rate in
      let back = conversion_factor_for_currency_change to from rate in
      convert back.0 back.1 (convert there.0 there.1 amount) ≡ amount
unfolding default_currency_change_rate conversion_factor_for_currency_change convert round_div
there_and_back rub rub amount h = absurd cc
there_and_back rub usd amount h = absurd cc
there_and_back rub eur amount h = absurd cc
there_and_back usd rub amount h = omega arith
there_and_back usd usd amount h = absurd cc
there_and_back usd eur amount h = absurd cc
there_and_back eur rub amount h = omega arith
there_and_back eur usd amount h = omega arith
there_and_back eur eur amount h = absurd cc
