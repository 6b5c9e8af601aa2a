-- ===== src/Http/Tests.antt =====
-- Examples of streams, bodies and handlers (apps/web/src/lib/ndjson.ts,
-- apps/web/src/server/request-body.ts, apps/web/src/server/restream/http.ts).
use streambrew.Base.{
  ◌≡◌, refl, ◌⊎◌, ◌↔◌, true, false, List, [], ◌∷◌, ◌++◌, map, Text, codes, Option, none, some, err,
  ok,
}
use streambrew.Http.Ndjson.{chunk, done, finished, split, give_lines, read_ndjson_lines}
use streambrew.Http.Ndjson.Chunks.{lines_of, join, read_ndjson_lines-lines_of}
use streambrew.Http.Body.{
  BodyRead, piece, finish, invalid, too_large, validate_content_length, join_chunks, read_body,
  read_bounded_request_body,
}
use streambrew.Http.Body.Whole.{Undisturbed, read_bounded_request_body-Undisturbed}
use streambrew.Http.Media.{
  MediaRequest, MediaInput, ended, Service, bearer, response, Handled, parse_request, respond,
  handle_restream_media,
}
use streambrew.Http.Media.Refused.{is_refusal, Accepted, handle_restream_media_cases}
use streambrew.Http.Requests.{bound_trpc_request, refused, with_body}
use streambrew.Http.Uploads.{
  image, Form, text, file, validate_upload_form, UploadRequest, reject_invalid_upload_boundary,
  failed_otherwise, rejected, upload_asset, error_status, process_upload, Uploads, no_uploads,
  acquire_upload, begin_upload, UploadEvent, arrive, settle, upload_step, upload_run,
}
use streambrew.Http.Uploads.Slot.{IsHeld, Admission, one_upload_at_a_time}
use streambrew.Restream.Sessions.{Db, end_session}
use streambrew.Restream.Tables.{Session, live}

-- A line over two chunks, a blank one, and a last one without its line feed.
read_lines :
    read_ndjson_lines 10 []
      (chunk (b'a' ∷ []) ∷ chunk (b'b' ∷ b'\n' ∷ b'\n' ∷ []) ∷ done (b'c' ∷ []) ∷ [])
    ≡ record { given = (b'a' ∷ b'b' ∷ []) ∷ (b'c' ∷ []) ∷ []; ending = finished }
unfolding read_ndjson_lines give_lines split
read_lines = refl

read_ndjson_lines-lines_of_example :
    read_ndjson_lines 10 []
      (map chunk ((b'a' ∷ []) ∷ (b'b' ∷ b'\n' ∷ []) ∷ []) ++ done (b'c' ∷ []) ∷ [])
    ≡ lines_of 10 (join ((b'a' ∷ []) ∷ (b'b' ∷ b'\n' ∷ []) ∷ []) ++ (b'c' ∷ []))
read_ndjson_lines-lines_of_example =
    read_ndjson_lines-lines_of 10 ((b'a' ∷ []) ∷ (b'b' ∷ b'\n' ∷ []) ∷ []) (b'c' ∷ []) []

abbrev rounds : List BodyRead
rounds = piece false (1 ∷ 2 ∷ []) ∷ piece false (3 ∷ []) ∷ finish false ∷ []

read_body_whole : read_bounded_request_body 3 rounds ≡ some (ok (1 ∷ 2 ∷ 3 ∷ []))
unfolding read_body join_chunks
read_body_whole = refl

read_body_over : read_bounded_request_body 2 rounds ≡ some (err too_large)
unfolding read_body
read_body_over = refl

length_signed : validate_content_length (some (b'+' ∷ b'1' ∷ [])) 10 true ≡ err invalid
unfolding validate_content_length
length_signed = refl

length_zero : validate_content_length (some (b'0' ∷ [])) 10 true ≡ err invalid
unfolding validate_content_length
length_zero = refl

read_bounded_request_body-Undisturbed_example :
    (read_bounded_request_body 3 rounds ≡ some (ok (1 ∷ 2 ∷ 3 ∷ [])))
    ↔ Undisturbed 3 rounds (1 ∷ 2 ∷ 3 ∷ [])
read_bounded_request_body-Undisturbed_example =
    read_bounded_request_body-Undisturbed 3 rounds (1 ∷ 2 ∷ 3 ∷ [])

trpc_over :
    bound_trpc_request (record {
      is_post = true;
      content_length = some (b'1' ∷ b'0' ∷ b'4' ∷ b'8' ∷ b'5' ∷ b'7' ∷ b'7' ∷ []);
      body = some rounds;
    })
    ≡ some (refused 413)
unfolding bound_trpc_request validate_content_length
trpc_over = refl

trpc_body :
    bound_trpc_request (record { is_post = true; content_length = none; body = some rounds })
    ≡ some (with_body (1 ∷ 2 ∷ 3 ∷ []))
unfolding bound_trpc_request validate_content_length read_body join_chunks
trpc_body = refl

-- A schema that takes one byte for a session's number.
abbrev decode : Text → Option MediaInput
decode (c ∷ []) = some (ended (b'n' ∷ []) c)
decode _ = none

abbrev service : Service
service = record {
  cipher = record { encrypt = λ nonce key. nonce ++ key; decrypt = λ bytes. some bytes };
  hash = λ key. key;
  decode = decode;
  is_response = λ a. true;
  secret = b's' ∷ [];
}

abbrev session : Session
session = record {
  session_id = 5;
  user_id = 7;
  node_id = b'n' ∷ [];
  publisher_id = b'p' ∷ [];
  status = live;
  live_at = some 1;
  last_heartbeat_at = 1;
  ended_at = none;
}

abbrev db : Db
db = record { ingests = []; destinations = []; sessions = session ∷ []; session_destinations = [] }

abbrev request : MediaRequest
request = record {
  authorization = some (bearer (b's' ∷ []));
  content_length = some (b'1' ∷ []);
  body = some (piece false (5 ∷ []) ∷ finish false ∷ []);
}

abbrev unknown : MediaRequest
unknown = record request { body = some (piece false (6 ∷ []) ∷ finish false ∷ []) }

unknown_session :
    handle_restream_media service 1 2 db unknown ≡ record { answer = response 404; db = db }
unfolding handle_restream_media parse_request validate_content_length read_body join_chunks respond
    end_session
unknown_session = refl

known_session : (handle_restream_media service 1 2 db request).answer ≡ response 204
unfolding handle_restream_media parse_request validate_content_length read_body join_chunks respond
    end_session
known_session = refl

handle_restream_media_cases_example :
    let handled : Handled = handle_restream_media service 1 2 db request in
    ((is_refusal handled.answer ≡ true) × (handled.db ≡ db))
    ⊎ ((is_refusal handled.answer ≡ false)
        × ((input : MediaInput) × Accepted service request input
            × (handled ≡ respond service 1 2 db input)))
handle_restream_media_cases_example = handle_restream_media_cases service 1 2 db request

abbrev form : Form
form = record {
  kind_entry = some (text (codes "image"));
  file_entry = some (file (record { content = []; size = 10; content_type = codes "image/png" }));
}

upload_form :
    validate_upload_form form
    ≡ ok (record { content = []; size = 10; content_type = codes "image/png" }, image)
unfolding validate_upload_form
upload_form = refl

-- An image cannot be sent as a sound.
wrong_kind :
    validate_upload_form (record form { kind_entry = some (text (codes "sound")) }) ≡ err 400
unfolding validate_upload_form
wrong_kind = refl

abbrev upload : UploadRequest
upload = record {
  origin = some (codes "https://a");
  marker = some (codes "1");
  declared = some 100;
  body = some rounds;
}

unmarked :
    reject_invalid_upload_boundary (codes "https://a") (record upload { marker = none }) ≡ some 403
unfolding reject_invalid_upload_boundary
unmarked = refl

aborted_upload :
    process_upload
      (λ b. some form)
      (λ f. record { is_aborted = false; answer = err failed_otherwise; is_aborted_after = true })
      upload
    ≡ some (rejected 504)
unfolding process_upload read_body join_chunks validate_upload_form upload_asset error_status
aborted_upload = refl

abbrev events : List UploadEvent
events =
    arrive 1 upload (some 7) ∷ arrive 2 upload (some 8) ∷ settle 1 ∷ arrive 3 upload (some 9) ∷ []

second_is_refused :
    (upload_run (codes "https://a") no_uploads events).running ≡ record { call = 3; user = 9 } ∷ []
unfolding upload_run upload_step begin_upload reject_invalid_upload_boundary acquire_upload
second_is_refused = refl

one_upload_at_a_time_example :
    let st : Uploads = upload_run (codes "https://a") no_uploads events in
    IsHeld st × Admission (codes "https://a") st
one_upload_at_a_time_example = one_upload_at_a_time (codes "https://a") events
