-- ===== src/Http/Uploads.antt =====
-- The upload of an alert's image or sound: at most one at a time
-- (apps/web/src/server/donation-alert/http.ts). Calls interleave where the handler awaits.
pub mod Slot
use streambrew.Base.{
  ℕ, ◌+◌, ◌-◌, Bool, true, false, not, ◌&&◌, ◌||◌, List, [], ◌∷◌, Text, codes, text_eq, Option,
  none, some, anyb, filterb, ltb, leb, ◌==◌, if◌then◌else◌, Result, err, ok,
}
use streambrew.Http.Body.{
  BodyError, too_large, invalid, aborted, BodyRead, read_bounded_request_body,
}

abbrev pub max_upload_request_bytes : ℕ
max_upload_request_bytes = 11_534_336

abbrev pub max_concurrent_uploads : ℕ
max_concurrent_uploads = 1

pub data Kind : Type 0 where
  image sound : Kind

abbrev pub max_bytes_of : Kind → ℕ
max_bytes_of image = 4_194_304
max_bytes_of sound = 10_485_760

abbrev pub content_types : Kind → List Text
content_types image =
    codes "image/gif" ∷ codes "image/jpeg" ∷ codes "image/png" ∷ codes "image/webp" ∷ []
content_types sound =
    codes "audio/mpeg"
    ∷ codes "audio/ogg"
    ∷ codes "audio/opus"
    ∷ codes "audio/wav"
    ∷ codes "audio/wave"
    ∷ codes "audio/x-wav"
    ∷ []

pub record File : Type 0 where
  pub content : Text
  pub size : ℕ
  pub content_type : Text

-- What form.get gives: an entry of text or a file.
pub data Entry : Type 0 where
  text : Text → Entry
  file : File → Entry

pub record Form : Type 0 where
  pub kind_entry : Option Entry
  pub file_entry : Option Entry

-- `declared` is Number(content-length), which is 0 without the header, and none where that is not a
-- safe integer or is negative.
pub record UploadRequest : Type 0 where
  pub origin : Option Text
  pub marker : Option Text
  pub declared : Option ℕ
  pub body : Option (List BodyRead)

-- A status with no body that matters, or the asset of the service.
pub data UploadResponse : Type 0 where
  rejected : (status : ℕ) → UploadResponse
  stored : (asset : ℕ) → UploadResponse

abbrev pub is_text : Text → Option Text → Bool
is_text t none = false
is_text t (some s) = text_eq s t

abbrev pub declared_status : Option ℕ → Option ℕ
declared_status none = some 411
declared_status (some n) =
    if leb n 0 then some 411 else if ltb max_upload_request_bytes n then some 413 else none

-- The status of the refusal, or none.
unfoldable pub reject_invalid_upload_boundary : Text → UploadRequest → Option ℕ
reject_invalid_upload_boundary app_origin r =
    if not (is_text app_origin r.origin) || not (is_text (codes "1") r.marker)
    then some 403
    else declared_status r.declared

abbrev pub kind_of : Option Entry → Option Kind
kind_of (some (text t)) =
    if text_eq t (codes "image")
    then some image
    else if text_eq t (codes "sound")
    then some sound
    else none
kind_of _ = none

abbrev pub check_file : Kind → Option Entry → Result ℕ (File × Kind)
check_file kind (some (file f)) =
    if leb f.size 0
      || (ltb (max_bytes_of kind) f.size
          || not (anyb (text_eq f.content_type) (content_types kind)))
    then err 400
    else ok (f, kind)
check_file kind _ = err 400

unfoldable pub validate_upload_form : Form → Result ℕ (File × Kind)
validate_upload_form form = elim (kind_of form.kind_entry) [
  | none ↦ err 400
  | some kind ↦ check_file kind form.file_entry
]

-- A DonationAlertServiceError with its status, or another error.
pub data UploadFailure : Type 0 where
  service_failed : Option ℕ → UploadFailure
  failed_otherwise : UploadFailure

-- errorResponse
unfoldable pub error_status : UploadFailure → ℕ
error_status (service_failed (some status)) =
    if leb 400 status && ltb status 500 then status else 503
error_status (service_failed none) = 503
error_status failed_otherwise = 500

-- How the sending of a file goes: whether the operation is aborted once the file is read, the
-- service's answer, and whether it is aborted when an error is caught.
pub record Sending : Type 0 where
  pub is_aborted : Bool
  pub answer : Result UploadFailure ℕ
  pub is_aborted_after : Bool

unfoldable pub upload_asset : Sending → UploadResponse
upload_asset sending = if sending.is_aborted then rejected 504 else elim sending.answer [
  | ok asset ↦ stored asset
  | err failure ↦ rejected (if sending.is_aborted_after then 504 else error_status failure)
]

-- translateBodyError
abbrev pub body_status : BodyError → ℕ
body_status too_large = 413
body_status aborted = 408
body_status invalid = 400

-- `form_data` reads a whole body as a form; none is a body that is not one. The outer none stands for
-- an upload that is still running.
abbrev pub process_form : (Text → Option Form) → (File × Kind → Sending) → Text → UploadResponse
process_form form_data send body = elim (form_data body) [
  | none ↦ rejected 400
  | some form ↦ elim (validate_upload_form form) [
    | err status ↦ rejected status
    | ok upload ↦ upload_asset (send upload)
  ]
]

abbrev pub process_body :
    (Text → Option Form) → (File × Kind → Sending) → Result BodyError Text → UploadResponse
process_body form_data send (err reason) = rejected (body_status reason)
process_body form_data send (ok body) = process_form form_data send body

unfoldable pub process_upload :
    (Text → Option Form) → (File × Kind → Sending) → UploadRequest → Option UploadResponse
process_upload form_data send r = elim r.body [
  | none ↦ some (rejected 400)
  | some rs ↦ elim (read_bounded_request_body max_upload_request_bytes rs) [
    | none ↦ none
    | some read ↦ some (process_body form_data send read)
  ]
]

-- The module's variables, and the uploads that hold the slot: their call and their user, whom the
-- function that releases the slot remembers.
pub record Running : Type 0 where
  pub call : ℕ
  pub user : ℕ

pub record Uploads : Type 0 where
  pub active_uploads : ℕ
  pub active_upload_users : List ℕ
  pub running : List Running

abbrev pub no_uploads : Uploads
no_uploads = record { active_uploads = 0; active_upload_users = []; running = [] }

-- activeUploads is above 0 whenever a slot is released.
abbrev pub release : ℕ → Uploads → Uploads
release user st = record st {
  active_uploads = st.active_uploads - 1;
  active_upload_users = filterb (λ u. not (u == user)) st.active_upload_users;
}

unfoldable pub acquire_upload : ℕ → ℕ → Uploads → Option Uploads
acquire_upload call user st =
    if leb max_concurrent_uploads st.active_uploads || anyb (λ u. u == user) st.active_upload_users
    then none
    else some (record {
      active_uploads = st.active_uploads + 1;
      active_upload_users = user ∷ st.active_upload_users;
      running = record { call = call; user = user } ∷ st.running;
    })

-- A call comes to the slot, with the user that the session names, or an upload that runs settles.
pub data UploadEvent : Type 0 where
  arrive : (call : ℕ) → UploadRequest → Option ℕ → UploadEvent
  settle : (call : ℕ) → UploadEvent

abbrev pub take_slot : ℕ → Option ℕ → Uploads → Option ℕ × Uploads
take_slot call none st = (some 401, st)
take_slot call (some u) st = elim (acquire_upload call u st) [
  | none ↦ (some 429, st)
  | some next ↦ (none, next)
]

abbrev pub pass_boundary : Option ℕ → ℕ → Option ℕ → Uploads → Option ℕ × Uploads
pass_boundary (some status) call user st = (some status, st)
pass_boundary none call user st = take_slot call user st

-- handleAlertUpload up to its first await behind the slot: a status, or an upload that runs.
unfoldable pub begin_upload : Text → ℕ → UploadRequest → Option ℕ → Uploads → Option ℕ × Uploads
begin_upload app_origin call r user st =
    pass_boundary (reject_invalid_upload_boundary app_origin r) call user st

abbrev pub is_call : ℕ → Running → Bool
is_call call up = up.call == call

-- The finally: whatever the upload comes to, its slot is released.
abbrev pub settled : ℕ → List Running → Uploads → Uploads
settled call [] st = st
settled call (up ∷ ups) st =
    let rest = settled call ups st in if is_call call up then release up.user rest else rest

unfoldable pub upload_step : Text → Uploads → UploadEvent → Uploads
upload_step app_origin st (arrive call r user) = (begin_upload app_origin call r user st).1
upload_step app_origin st (settle call) =
    let after = settled call st.running st in
    record after { running = filterb (λ up. not (is_call call up)) st.running }

unfoldable pub upload_run : Text → Uploads → List UploadEvent → Uploads
upload_run app_origin st [] = st
upload_run app_origin st (e ∷ es) = upload_run app_origin (upload_step app_origin st e) es
