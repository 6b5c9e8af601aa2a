-- ===== src/Http/AlertMedia.antt =====
-- The images and sounds of alerts, fetched from the service for who may have them
-- (`handleAlertMedia` in apps/web/src/server/donation-alert/http.ts).
pub mod Granted
mod Tests
use streambrew.Base.{
  ℕ, Bool, true, false, List, [], ◌∷◌, ◌++◌, Text, codes, Option, none, some, ◌==◌, if◌then◌else◌,
  Result, err, ok,
}
use streambrew.Http.Body.{BodyRead, validate_content_length, read_bounded_request_body}
use streambrew.Http.Body.{BodyError}
use streambrew.Http.Uploads.{UploadFailure, service_failed, failed_otherwise, body_status}

abbrev pub max_media_request_bytes : ℕ
max_media_request_bytes = 256

pub data Method : Type 0 where
  get post other : Method

-- `user` is whom the session names; `path_part` is the last part of the path.
pub record AssetRequest : Type 0 where
  pub method : Method
  pub path_part : Text
  pub user : Option ℕ
  pub content_length : Option Text
  pub body : Option (List BodyRead)
  pub range : Option Text

pub data Principal : Type 0 where
  by_user : ℕ → Principal
  by_token : Text → Principal

abbrev pub parse_json {ℓ} : {A : Type ℓ} → (Text → Option A) → Text → Result ℕ A
parse_json decode bytes = elim (decode bytes) [ some value ↦ ok value | none ↦ err 400 ]

abbrev pub json_of {ℓ} :
    {A : Type ℓ} → (Text → Option A) → Option (Result BodyError Text) → Option (Result ℕ A)
json_of decode none = none
json_of decode (some (err reason)) = some (err (body_status reason))
json_of decode (some (ok bytes)) = some (parse_json decode bytes)

abbrev pub json_body {ℓ} :
    {A : Type ℓ} → (Text → Option A) → ℕ → Option (List BodyRead) → Option (Result ℕ A)
json_body decode max_bytes none = some (err 400)
json_body decode max_bytes (some rs) = json_of decode (read_bounded_request_body max_bytes rs)

abbrev pub after_length {ℓ} :
    {A : Type ℓ} → Result BodyError (Unit {0}) → Option (Result ℕ A) → Option (Result ℕ A)
after_length (err reason) next = some (err (body_status reason))
after_length (ok passed) next = next

-- readBoundedJson: a status or the value, or none while the body is still read. `decode` is the JSON
-- parsed by the schema.
abbrev pub read_bounded_json {ℓ} :
    {A : Type ℓ}
    → (Text → Option A)
    → ℕ
    → Option Text
    → Option (List BodyRead)
    → Option (Result ℕ A)
read_bounded_json decode max_bytes content_length body =
    after_length (validate_content_length content_length max_bytes true)
      (json_body decode max_bytes body)

abbrev pub signed_in : Option ℕ → Result ℕ Principal
signed_in none = err 401
signed_in (some u) = ok (by_user u)

abbrev pub with_token : Option (Result ℕ Text) → Option (Result ℕ Principal)
with_token none = none
with_token (some (err status)) = some (err status)
with_token (some (ok token)) = some (ok (by_token token))

abbrev pub principal_by : Method → (Text → Option Text) → AssetRequest → Option (Result ℕ Principal)
principal_by get decode r = some (signed_in r.user)
principal_by other decode r = some (err 405)
principal_by post decode r =
    with_token (read_bounded_json decode max_media_request_bytes r.content_length r.body)

unfoldable pub get_media_principal :
    (Text → Option Text) → AssetRequest → Option (Result ℕ Principal)
get_media_principal decode r = principal_by r.method decode r

pub record Upstream : Type 0 where
  pub status : ℕ
  pub header : Text → Option Text

pub data AssetAnswer : Type 0 where
  refused : (status : ℕ) → AssetAnswer
  proxied : (status : ℕ) (headers : List (Text × Text)) → AssetAnswer

abbrev pub or_default : Option Text → Text → Text
or_default none default = default
or_default (some value) default = value

abbrev pub passed_on : Upstream → List Text → List (Text × Text)
passed_on up [] = []
passed_on up (name ∷ names) = elim (up.header name) [
  | some value ↦ (name, value) ∷ passed_on up names
  | none ↦ passed_on up names
]

unfoldable pub media_response : Upstream → AssetAnswer
media_response up = proxied up.status (
    (codes "Accept-Ranges", or_default (up.header (codes "accept-ranges")) (codes "bytes"))
    ∷ (codes "Cache-Control", codes "private, max-age=3600")
    ∷ (
      codes "Content-Type",
      or_default (up.header (codes "content-type")) (codes "application/octet-stream"),
    )
    ∷ (codes "Cross-Origin-Resource-Policy", codes "same-origin")
    ∷ (codes "Referrer-Policy", codes "no-referrer")
    ∷ (codes "X-Content-Type-Options", codes "nosniff")
    ∷ passed_on up (codes "content-length" ∷ codes "content-range" ∷ []))

abbrev pub failure_status : UploadFailure → ℕ
failure_status (service_failed (some status)) =
    if status == 404 then 404 else if status == 416 then 416 else 503
failure_status (service_failed none) = 503
failure_status failed_otherwise = 503

abbrev pub proxied_or_refused : Result UploadFailure Upstream → AssetAnswer
proxied_or_refused (ok up) = media_response up
proxied_or_refused (err failure) = refused (failure_status failure)

-- `fetch` asks the service for an asset, for a principal and a range.
abbrev pub proxy_alert_media :
    (Text → Principal → Option Text → Result UploadFailure Upstream)
    → AssetRequest
    → Principal
    → AssetAnswer
proxy_alert_media fetch r principal = proxied_or_refused (fetch r.path_part principal r.range)

abbrev pub for_principal :
    (Text → Principal → Option Text → Result UploadFailure Upstream)
    → AssetRequest
    → Option (Result ℕ Principal)
    → Option AssetAnswer
for_principal fetch r none = none
for_principal fetch r (some (err status)) = some (refused status)
for_principal fetch r (some (ok principal)) = some (proxy_alert_media fetch r principal)

unfoldable pub handle_alert_media :
    (Text → Bool)
    → (Text → Option Text)
    → (Text → Principal → Option Text → Result UploadFailure Upstream)
    → AssetRequest
    → Option AssetAnswer
handle_alert_media is_asset_id decode fetch r =
    if is_asset_id r.path_part
    then for_principal fetch r (get_media_principal decode r)
    else some (refused 404)
