-- ===== src/Http/Media/Refused.antt =====
-- What a refused request of the media node leaves, and who is not refused
-- (apps/web/src/server/restream/http.ts).
use streambrew.Base.{
  ℕ, ◌≡◌, refl, ap, ◌∙◌, ◌⊎◌, inl, inr, Bool, true, false, not, List, [], ◌∷◌, map, Text,
  text_eq_sound, Option, none, some, arith, anyb, ◌==◌, if◌then◌else◌, Bool-cases, Option-cases,
  Result, ok, err,
}
use streambrew.Http.Body.{
  BodyError, too_large, invalid, aborted, BodyRead, validate_content_length,
  read_bounded_request_body,
}
use streambrew.Http.Body.Whole.{Undisturbed, read_bounded_request_body-Undisturbed}
use streambrew.Http.Media.{
  max_request_bytes, MediaRequest, MediaInput, authorize, beat, ended, bearer,
  has_valid_authorization, parse_body, parse_request, or_empty, Answer, unanswered, thrown,
  response, authorized, invalid_status, respond_parsed, Handled, Service, respond,
  handle_restream_media,
}
use streambrew.Restream.Tables.{Session}
use streambrew.Restream.Sessions.{
  Db, Authorized, is_hit, end_one, heartbeat, end_session, authorize_publisher,
}
use streambrew.Restream.Sessions.Authorize.{authorize_publisher-Opened, Result-cases}

-- No answer, or a status that is not 204.
abbrev pub is_refusal : Answer → Bool
is_refusal unanswered = true
is_refusal thrown = false
is_refusal (response status) = not (status == 204)
is_refusal (authorized a) = false

end_one-none :
    (node : Text) (id now : ℕ) (ss : List Session)
    → anyb (is_hit node id) ss ≡ false
    → map (end_one node id now) ss ≡ ss
end_one-none node id now [] h = refl
end_one-none node id now (s ∷ ss) h = ground (arith, end_one-none node id now ss)

-- The request has the secret, and its body is whole, within the bound, and reads as `input`.
pub record Accepted (service : Service) (r : MediaRequest) (input : MediaInput) : Type 0 where
  pub secret : or_empty r.authorization ≡ bearer service.secret
  pub rounds : List BodyRead
  pub body : r.body ≡ some rounds
  pub bytes : Text
  pub whole : Undisturbed max_request_bytes rounds bytes
  pub read : service.decode bytes ≡ some input

abbrev Settled : Db → Handled → Type 0
Settled db h = ((is_refusal h.answer ≡ true) × (h.db ≡ db)) ⊎ (is_refusal h.answer ≡ false)

granted : (b : Bool) (a : Authorized) → is_refusal (if b then authorized a else thrown) ≡ false
granted true a = refl
granted false a = refl

respond-Settled :
    (service : Service) (new_id now : ℕ) (db : Db) (input : MediaInput)
    → Settled db (respond service new_id now db input)
unfolding respond heartbeat end_session
respond-Settled service new_id now db (authorize node publisher path) =
    elim (Result-cases
      (authorize_publisher service.cipher service.hash node publisher path new_id now db)) [
        | inr (e, f) ↦ rw f (inr refl)
        | inl ((r, after), f) ↦
            rw f
              (elim (authorize_publisher-Opened service.cipher service.hash node publisher path
                new_id now db r after f) [
                  | inl (refused, same, _) ↦ inl (rw refused refl, rw (refused, same) refl)
                  | inr (i, a, found, let_in, o) ↦
                      inr (rw let_in (granted (service.is_response a) a))
                ])
      ]
respond-Settled service new_id now db (beat node id beats) =
    elim (Bool-cases (anyb (is_hit node id) db.sessions)) [
      | inl hit ↦ inr (rw hit refl)
      | inr missed ↦ inl (rw missed (refl, refl))
    ]
respond-Settled service new_id now db (ended node id) =
    elim (Bool-cases (anyb (is_hit node id) db.sessions)) [
      | inl hit ↦ inr (rw hit refl)
      | inr missed ↦ inl (rw missed refl, rw (end_one-none node id now db.sessions missed) refl)
    ]

parse_body-ok :
    (decode : Text → Option MediaInput) (body : Option (List BodyRead)) (input : MediaInput)
    → parse_body decode body ≡ some (ok input)
    → (rounds : List BodyRead) × (bytes : Text) × (body ≡ some rounds)
      × (read_bounded_request_body max_request_bytes rounds ≡ some (ok bytes))
      × (decode bytes ≡ some input)
parse_body-ok decode none input h = absurd (cc)
parse_body-ok decode (some rs) input h =
    elim (Option-cases (read_bounded_request_body max_request_bytes rs)) [
      | inl pending ↦ absurd (cc (rw (pending, parse_body) at h))
      | inr (read, e) ↦ elim (Result-cases read) [
        | inr (reason, f) ↦ absurd (cc (rw (e, f, parse_body) at h))
        | inl (bytes, f) ↦ elim (Option-cases (decode bytes)) [
          | inl unread ↦ absurd (cc (rw (e, f, parse_body, unread) at h))
          | inr (found, d) ↦
              (rs, bytes, refl, e ∙ ap some f, d ∙ cc (rw (e, f, parse_body, d) at h))
        ]
      ]
    ]

parse_request-ok :
    (service : Service) (r : MediaRequest) (input : MediaInput)
    → parse_request service.decode r ≡ some (ok input)
    → (rounds : List BodyRead) × (bytes : Text) × (r.body ≡ some rounds)
      × Undisturbed max_request_bytes rounds bytes
      × (service.decode bytes ≡ some input)
unfolding parse_request
parse_request-ok service r input h =
    elim (Result-cases (validate_content_length r.content_length max_request_bytes true)) [
      | inr (reason, e) ↦ absurd (cc (rw (e, parse_request) at h))
      | inl (passed, e) ↦
          let (rs, bytes, body, read, d) =
            parse_body-ok service.decode r.body input (rw (e, parse_request) at h) in
          (
            rs,
            bytes,
            body,
            (read_bounded_request_body-Undisturbed max_request_bytes rs bytes).0 read,
            d,
          )
    ]

invalid_status-refusal : (reason : BodyError) → is_refusal (response (invalid_status reason)) ≡ true
invalid_status-refusal too_large = refl
invalid_status-refusal invalid = refl
invalid_status-refusal aborted = refl

abbrev Shown : Service → ℕ → ℕ → Db → MediaRequest → Handled → Type 0
Shown service new_id now db r handled =
    ((is_refusal handled.answer ≡ true) × (handled.db ≡ db))
    ⊎ ((is_refusal handled.answer ≡ false)
        × ((input : MediaInput) × Accepted service r input
            × (handled ≡ respond service new_id now db input)))

parsed-cases :
    (service : Service) (new_id now : ℕ) (db : Db) (r : MediaRequest)
    (parsed : Option (Result BodyError MediaInput))
    → or_empty r.authorization ≡ bearer service.secret
    → parse_request service.decode r ≡ parsed
    → Shown service new_id now db r (respond_parsed service new_id now db parsed)
parsed-cases service new_id now db r none secret e = inl (refl, refl)
parsed-cases service new_id now db r (some (err reason)) secret e =
    inl (invalid_status-refusal reason, refl)
parsed-cases service new_id now db r (some (ok input)) secret e =
    elim (respond-Settled service new_id now db input) [
      | inl refused ↦ inl refused
      | inr settled ↦
          let (rs, bytes, body, whole, read) = parse_request-ok service r input e in
          let accepted : Accepted service r input = record {
            secret = secret;
            rounds = rs;
            body = body;
            bytes = bytes;
            whole = whole;
            read = read;
          } in
          inr (settled, (input, accepted, refl))
    ]

-- A request is either refused, with a status other than 204 or no answer yet, and then nothing of the
-- tables changes; or it has the secret and a whole body within 16384 bytes that the schema reads, and
-- is handled as the schema's reading of it says.
pub handle_restream_media_cases :
    (service : Service) (new_id now : ℕ) (db : Db) (r : MediaRequest)
    → let handled : Handled = handle_restream_media service new_id now db r in
      ((is_refusal handled.answer ≡ true) × (handled.db ≡ db))
      ⊎ ((is_refusal handled.answer ≡ false)
          × ((input : MediaInput) × Accepted service r input
              × (handled ≡ respond service new_id now db input)))
unfolding handle_restream_media
handle_restream_media_cases service new_id now db r =
    elim (Bool-cases (has_valid_authorization service.secret r)) [
      | inr stranger ↦ rw (stranger, handle_restream_media) (inl (refl, refl))
      | inl known ↦
          let secret = text_eq_sound (or_empty r.authorization) (bearer service.secret) known in
          rw (known, handle_restream_media)
            (parsed-cases service new_id now db r (parse_request service.decode r) secret refl)
    ]
