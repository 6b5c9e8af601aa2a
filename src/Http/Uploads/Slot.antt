-- ===== src/Http/Uploads/Slot.antt =====
-- The slot of the uploads (apps/web/src/server/donation-alert/http.ts).
use streambrew.Base.{
  ℕ, ◌≡◌, ◌≢◌, refl, ◌⊎◌, inl, inr, List, [], ◌∷◌, Text, Option, none, some, ==_refl, Bool-cases,
}
use streambrew.Http.Uploads.{
  UploadRequest, Running, Uploads, no_uploads, acquire_upload, pass_boundary, begin_upload, is_call,
  reject_invalid_upload_boundary, UploadEvent, arrive, settle, upload_step, upload_run,
}

-- Nothing runs and the variables are as at the start, or one upload runs and they tell its user.
pub data IsHeld : Uploads → Type 0 where
  free : IsHeld no_uploads
  held :
      (up : Running)
      → IsHeld
          (record { active_uploads = 1; active_upload_users = up.user ∷ []; running = up ∷ [] })

pass_boundary-IsHeld :
    (boundary : Option ℕ) (call : ℕ) (user : Option ℕ) (st : Uploads)
    → IsHeld st
    → IsHeld (pass_boundary boundary call user st).1
unfolding acquire_upload
pass_boundary-IsHeld (some status) call user st h = h
pass_boundary-IsHeld none call none st h = h
pass_boundary-IsHeld none call (some u) st free = held (record { call = call; user = u })
pass_boundary-IsHeld none call (some u) st (held up) = held up

upload_step-IsHeld :
    (app_origin : Text) (st : Uploads) (e : UploadEvent)
    → IsHeld st
    → IsHeld (upload_step app_origin st e)
unfolding upload_step begin_upload
upload_step-IsHeld app_origin st (settle call) free = free
upload_step-IsHeld app_origin st (settle call) (held up) = elim (Bool-cases (is_call call up)) [
  | inl his ↦ rw (his, ==_refl up.user) free
  | inr other ↦ rw other (held up)
]
upload_step-IsHeld app_origin st (arrive call r user) h =
    pass_boundary-IsHeld (reject_invalid_upload_boundary app_origin r) call user st h

upload_run-IsHeld :
    (app_origin : Text) (st : Uploads) (es : List UploadEvent)
    → IsHeld st
    → IsHeld (upload_run app_origin st es)
unfolding upload_run
upload_run-IsHeld app_origin st [] h = h
upload_run-IsHeld app_origin st (e ∷ es) h =
    upload_run-IsHeld app_origin (upload_step app_origin st e) es
      (upload_step-IsHeld app_origin st e h)

-- What a call gets that passes the boundary and has a user.
abbrev pub Admission : Text → Uploads → Type 0
Admission app_origin st =
    (call : ℕ) (r : UploadRequest) (u : ℕ)
    → reject_invalid_upload_boundary app_origin r ≡ none
    → let begun = begin_upload app_origin call r (some u) st in
      ((st.running ≡ [])
        × (begun.0 ≡ none)
        × (begun.1.running ≡ record { call = call; user = u } ∷ []))
      ⊎ ((st.running ≢ []) × (begun ≡ (some 429, st)))

Held-Admission : (app_origin : Text) (st : Uploads) → IsHeld st → Admission app_origin st
unfolding begin_upload acquire_upload
Held-Admission app_origin st free call r u passed = rw passed (inl (refl, refl, refl))
Held-Admission app_origin st (held up) call r u passed = rw passed (inr ((λ e. cc e), refl))

-- However the calls interleave, the variables tell at every time whether an upload runs, and at most
-- one does; a call that passes the boundary and has a user begins its upload when none runs, and is
-- refused with 429, changing nothing, when one does.
pub one_upload_at_a_time :
    (app_origin : Text) (es : List UploadEvent)
    → let st : Uploads = upload_run app_origin no_uploads es in IsHeld st × Admission app_origin st
one_upload_at_a_time app_origin es =
    let h = upload_run-IsHeld app_origin no_uploads es free in
    (h, Held-Admission app_origin (upload_run app_origin no_uploads es) h)
