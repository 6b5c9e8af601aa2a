-- ===== src/Http/AlertMedia/Tests.antt =====
-- Examples of the assets of alerts (`handleAlertMedia` in
-- apps/web/src/server/donation-alert/http.ts).
use streambrew.Base.{
  ◌≡◌, refl, Bool, true, false, List, [], ◌∷◌, Text, codes, Option, none, some, Result, ok, err,
}
use streambrew.Http.Body.{BodyRead, piece, finish, validate_content_length, join_chunks, read_body}
use streambrew.Http.Uploads.{UploadFailure, service_failed}
use streambrew.Http.AlertMedia.{
  get, post, AssetRequest, Principal, by_token, by_user, get_media_principal, Upstream, refused,
  proxied, media_response, handle_alert_media,
}
use streambrew.Http.AlertMedia.Granted.{IsPrincipal, handle_alert_media_granted}

abbrev rounds : List BodyRead
rounds = piece false (1 ∷ 2 ∷ []) ∷ piece false (3 ∷ []) ∷ finish false ∷ []

abbrev asset_request : AssetRequest
asset_request = record {
  method = post;
  path_part = codes "a";
  user = none;
  content_length = some (codes "3");
  body = some rounds;
  range = none;
}

abbrev token_of : Text → Option Text
token_of bytes = some bytes

abbrev upstream : Upstream
upstream = record { status = 206; header = λ name. none }

abbrev fetch : Text → Principal → Option Text → Result UploadFailure Upstream
fetch id (by_token token) range = ok upstream
fetch id (by_user u) range = err (service_failed (some 404))

fetched :
    handle_alert_media (λ id. true) token_of fetch asset_request ≡ some (media_response upstream)
unfolding handle_alert_media get_media_principal validate_content_length read_body join_chunks
    media_response
fetched = refl

-- A GET needs the session's user.
not_signed_in :
    handle_alert_media (λ id. true) token_of fetch (record asset_request { method = get })
    ≡ some (refused 401)
unfolding handle_alert_media get_media_principal
not_signed_in = refl

abbrev headers : List (Text × Text)
headers =
    (codes "Accept-Ranges", codes "bytes")
    ∷ (codes "Cache-Control", codes "private, max-age=3600")
    ∷ (codes "Content-Type", codes "application/octet-stream")
    ∷ (codes "Cross-Origin-Resource-Policy", codes "same-origin")
    ∷ (codes "Referrer-Policy", codes "no-referrer")
    ∷ (codes "X-Content-Type-Options", codes "nosniff")
    ∷ []

proxied_headers :
    handle_alert_media (λ id. true) token_of fetch asset_request ≡ some (proxied 206 headers)
unfolding handle_alert_media get_media_principal validate_content_length read_body join_chunks
    media_response
proxied_headers = refl

handle_alert_media_granted_example :
    (◌≡◌ {A = Bool} true true)
    × ((principal : Principal) × (up : Upstream) × IsPrincipal token_of asset_request principal
        × (fetch (codes "a") principal none ≡ ok up)
        × (proxied 206 headers ≡ media_response up))
handle_alert_media_granted_example =
    handle_alert_media_granted (λ id. true) token_of fetch asset_request 206 headers proxied_headers
