-- ===== src/Chat/Tests.antt =====
-- Examples of the chat feed (apps/web/src/hooks/use-chat-service-stream.ts).
use streambrew.Base.{
  ◌-◌, ◌*◌, ◌^◌, ◌<◌, min, ◌≡◌, refl, ◌⊎◌, false, List, [], ◌∷◌, none, some, arith, length, drop,
  ltb, if◌then◌else◌,
}
use streambrew.Chat.Feed.{
  Message, message, event, kept, received, initial_state, reduce_all, overlay_not_found,
}
use streambrew.Chat.Order.{IsValid, placed, others, reduce_all-IsValid, received_cases}
use streambrew.Chat.Subscription.{
  editor, overlay, not_found_code, unauthorized_code, another, Subscription, failure_code, Signal,
  started, failed, timer_fired, unmounted, step, run,
}
use streambrew.Chat.Subscription.Retry.{signals-IsValid, unmounted_stops, revoked_link_stops}
use streambrew.Chat.Subscription.Backoff.{Failure, signals_of, Opened, retry_backoff}
use streambrew.Chat.Subscription.Retry

abbrev first_message : Message
first_message = record {
  id = b'1' ∷ [];
  source_id = b's' ∷ [];
  author = [];
  text = [];
  occurred_at = 20;
}

abbrev earlier_message : Message
earlier_message = record {
  id = b'2' ∷ [];
  source_id = b's' ∷ [];
  author = [];
  text = [];
  occurred_at = 10;
}

reduce_all-IsValid_example :
    IsValid
      (reduce_all initial_state
        (event (message first_message) ∷ event (message earlier_message) ∷ [])).messages
reduce_all-IsValid_example =
    reduce_all-IsValid (event (message first_message) ∷ event (message earlier_message) ∷ [])

one_message : IsValid (first_message ∷ [])
one_message = record { ordered = (tt, tt); unique = (tt, tt); bounded = omega arith }

received_cases_example :
    ((length (others earlier_message (first_message ∷ [])) < kept)
      × (received earlier_message (first_message ∷ [])
          ≡ placed earlier_message (others earlier_message (first_message ∷ []))))
    ⊎ ((length (others earlier_message (first_message ∷ [])) ≡ kept)
        × (received earlier_message (first_message ∷ [])
            ≡ drop 1 (placed earlier_message (others earlier_message (first_message ∷ [])))))
received_cases_example = received_cases earlier_message (first_message ∷ []) one_message

abbrev subscription : Subscription
subscription = record {
  feed = initial_state;
  disposed = false;
  ended = false;
  attempt = 2;
  started_at = 1_000;
  retry_timer = none;
}

abbrev signals : List Signal
signals = started ∷ failed another 3_000 ∷ timer_fired 8_000 ∷ []

signals-IsValid_example : Retry.IsValid (run editor subscription signals)
signals-IsValid_example = signals-IsValid editor subscription signals (record { waits = tt })

unmounted_stops_example :
    ((run editor (step editor subscription unmounted) signals).retry_timer ≡ none)
    × ((run editor (step editor subscription unmounted) signals).started_at ≡ 1_000)
unmounted_stops_example = unmounted_stops editor subscription signals

revoked_link_stops_example :
    let revoked = step overlay subscription (failed not_found_code 2_000) in
    (revoked.feed.connection_error ≡ some overlay_not_found)
    × ((run overlay revoked signals).retry_timer ≡ none)
    × ((run overlay revoked signals).started_at ≡ 1_000)
revoked_link_stops_example = revoked_link_stops subscription 2_000 signals refl refl refl

abbrev fresh : Subscription
fresh = record subscription { attempt = 0 }

abbrev failures : List Failure
failures =
    record { error = another; failed_at = 3_000; fired_at = 4_000 }
    ∷ record { error = unauthorized_code; failed_at = 4_500; fired_at = 6_500 }
    ∷ []

retry_backoff_example :
    let after = run editor fresh (signals_of failures) in
    let ended = step editor after (failed another 7_000) in
    let again = step editor ended (timer_fired 11_000) in
    let quick = ltb (7_000 - after.started_at) 30_000 in
    Opened 2 after
    × (ended.retry_timer ≡ some (if quick then min (1_000 * 2 ^ 2) 30_000 else 1_000))
    × (ended.feed.connection_error ≡ some (failure_code another editor))
    × Opened (if quick then 3 else 1) again
    × (again.started_at ≡ 11_000)
retry_backoff_example =
    retry_backoff editor fresh failures another 7_000 11_000
      (record { mounted = refl; running = refl; attempt = refl })
      ((λ q. cc), omega arith, ((λ q. cc), omega arith, tt)) (λ q. cc)
