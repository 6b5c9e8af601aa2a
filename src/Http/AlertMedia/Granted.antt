-- ===== src/Http/AlertMedia/Granted.antt =====
-- Who gets the images and sounds of alerts (`handleAlertMedia` in
-- apps/web/src/server/donation-alert/http.ts).
use streambrew.Base.{
  ℕ, ◌≡◌, ◌∙◌, refl, inl, inr, Bool, true, List, Text, Option, none, some, Bool-cases, Option-cases,
  Result, err, ok,
}
use streambrew.Http.Body.{BodyError, BodyRead, validate_content_length, read_bounded_request_body}
use streambrew.Http.Body.Whole.{Undisturbed, read_bounded_request_body-Undisturbed}
use streambrew.Http.Uploads.{UploadFailure}
use streambrew.Http.AlertMedia.{
  max_media_request_bytes, Method, get, post, other, AssetRequest, Principal, by_user, by_token,
  parse_json, json_body, json_of, after_length, principal_by, get_media_principal, with_token,
  signed_in, Upstream, proxied, media_response, proxied_or_refused, for_principal,
  handle_alert_media,
}
use streambrew.Restream.Sessions.Authorize.{Result-cases}

-- The body is whole, within the bound, and reads as the token.
pub record HasToken (decode : Text → Option Text) (r : AssetRequest) (token : Text) : Type 0 where
  pub rounds : List BodyRead
  pub body : r.body ≡ some rounds
  pub bytes : Text
  pub whole : Undisturbed max_media_request_bytes rounds bytes
  pub read : decode bytes ≡ some token

-- The session's user in a GET, or the token of a POST.
abbrev pub IsPrincipal : (Text → Option Text) → AssetRequest → Principal → Type 0
IsPrincipal decode r (by_user u) = (r.method ≡ get) × (r.user ≡ some u)
IsPrincipal decode r (by_token token) = (r.method ≡ post) × HasToken decode r token

json_body-ok :
    (decode : Text → Option Text) (r : AssetRequest) (body : Option (List BodyRead)) (token : Text)
    → r.body ≡ body
    → json_body decode max_media_request_bytes body ≡ some (ok token)
    → HasToken decode r token
json_body-ok decode r none token e h = absurd (cc)
json_body-ok decode r (some rs) token e h =
    onto (read_bounded_request_body max_media_request_bytes rs) refl h
  where
    onto :
        (read : _)
        → read_bounded_request_body max_media_request_bytes rs ≡ read
        → json_of decode read ≡ some (ok token)
        → HasToken decode r token
    onto none f k = absurd (cc)
    onto (some (err reason)) f k = absurd (cc)
    onto (some (ok bytes)) f k = elim (Option-cases (decode bytes)) [
      | inl unread ↦ absurd (cc (rw (unread, json_of, parse_json) at k))
      | inr (found, d) ↦ record {
        rounds = rs;
        body = e;
        bytes = bytes;
        whole = (read_bounded_request_body-Undisturbed max_media_request_bytes rs bytes).0 f;
        read = d ∙ cc (rw (d, json_of, parse_json) at k);
      }
    ]

signed_in-ok :
    (user : Option ℕ) (principal : Principal)
    → some (signed_in user) ≡ some (ok principal)
    → (u : ℕ) × (user ≡ some u) × (principal ≡ by_user u)
signed_in-ok none principal h = absurd (cc)
signed_in-ok (some u) principal h = (u, refl, cc)

with_token-ok :
    (found : Option (Result ℕ Text)) (principal : Principal)
    → with_token found ≡ some (ok principal)
    → (token : Text) × (found ≡ some (ok token)) × (principal ≡ by_token token)
with_token-ok none principal h = absurd (cc)
with_token-ok (some (err status)) principal h = absurd (cc)
with_token-ok (some (ok token)) principal h = (token, refl, cc)

after_length-ok :
    (length : Result BodyError (Unit {0})) (next : Option (Result ℕ Text)) (token : Text)
    → after_length length next ≡ some (ok token)
    → next ≡ some (ok token)
after_length-ok (err reason) next token h = absurd (cc)
after_length-ok (ok passed) next token h = h

principal_by-IsPrincipal :
    (decode : Text → Option Text) (r : AssetRequest) (method : Method) (principal : Principal)
    → r.method ≡ method
    → principal_by method decode r ≡ some (ok principal)
    → IsPrincipal decode r principal
principal_by-IsPrincipal decode r other principal m h = absurd (cc)
principal_by-IsPrincipal decode r get principal m h =
    let (u, e, same) = signed_in-ok r.user principal h in rw same (m, e)
principal_by-IsPrincipal decode r post principal m h =
    let length = validate_content_length r.content_length max_media_request_bytes true in
    let body = json_body decode max_media_request_bytes r.body in
    let (token, e, same) = with_token-ok (after_length length body) principal h in
    rw same (m, json_body-ok decode r r.body token refl (after_length-ok length body token e))

-- An asset is passed on only where its id has the right form and the service gives it to the user of
-- the session, in a GET, or to the holder of a token that is the whole of a body within 256 bytes, in
-- a POST; the answer is then the service's.
pub handle_alert_media_granted :
    (is_asset_id : Text → Bool) (decode : Text → Option Text)
    (fetch : Text → Principal → Option Text → Result UploadFailure Upstream) (r : AssetRequest)
    (status : ℕ) (headers : List (Text × Text))
    → handle_alert_media is_asset_id decode fetch r ≡ some (proxied status headers)
    → (is_asset_id r.path_part ≡ true)
      × ((principal : Principal) × (up : Upstream) × IsPrincipal decode r principal
          × (fetch r.path_part principal r.range ≡ ok up)
          × (proxied status headers ≡ media_response up))
unfolding handle_alert_media get_media_principal
handle_alert_media_granted is_asset_id decode fetch r status headers h =
    elim (Bool-cases (is_asset_id r.path_part)) [
      | inr unknown ↦ absurd (cc (rw (unknown, handle_alert_media) at h))
      | inl known ↦
          (known, onto (get_media_principal decode r) refl (rw (known, handle_alert_media) at h))
    ]
  where
    onto :
        (found : Option (Result ℕ Principal))
        → get_media_principal decode r ≡ found
        → for_principal fetch r found ≡ some (proxied status headers)
        → (principal : Principal) × (up : Upstream) × IsPrincipal decode r principal
          × (fetch r.path_part principal r.range ≡ ok up)
          × (proxied status headers ≡ media_response up)
    onto none e k = absurd (cc)
    onto (some (err code)) e k = absurd (cc)
    onto (some (ok principal)) e k = elim (Result-cases (fetch r.path_part principal r.range)) [
      | inr (failure, f) ↦ absurd (cc (rw (f, for_principal, proxied_or_refused) at k))
      | inl (up, f) ↦ (
        principal,
        up,
        principal_by-IsPrincipal decode r r.method principal refl e,
        f,
        cc (rw (f, for_principal, proxied_or_refused) at k),
      )
    ]
