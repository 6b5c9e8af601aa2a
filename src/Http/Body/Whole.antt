-- ===== src/Http/Body/Whole.antt =====
-- A body that is read is the whole of what was sent (apps/web/src/server/request-body.ts).
use streambrew.Base.{
  ℕ, suc, ◌+◌, ◌≤◌, ◌≡◌, ◌∙◌, refl, sym, ap, subst, ◌↔◌, inl, inr, true, false, List, [], ◌∷◌, ◌++◌,
  map, append_assoc, append-nil, Text, arith, length, length-append, some, ltb, Bool-cases, ok,
}
use streambrew.Http.Body.{
  overwrite, set, zeros, put_chunks, join_chunks, BodyRead, stopped, piece, finish, failure,
  read_body, read_bounded_request_body,
}
use streambrew.Http.Ndjson.Chunks.{join}

join-append : (cs : List Text) (c : Text) → join (cs ++ c ∷ []) ≡ join cs ++ c
join-append [] c = append-nil c
join-append (d ∷ cs) c = rw (join-append cs c, append_assoc d (join cs) c) refl

overwrite-zeros : (c : Text) (n : ℕ) → overwrite (zeros (length c + n)) c ≡ some (c ++ zeros n)
overwrite-zeros [] n = let none_more : 0 + n ≡ n = omega arith in rw none_more refl
overwrite-zeros (x ∷ c) n =
    let one_more : suc (length c) + n ≡ suc (length c + n) = omega arith in
    rw (one_more, overwrite-zeros c n) refl

set-zeros :
    (before c : Text) (n : ℕ)
    → set (length before) c (before ++ zeros (length c + n)) ≡ some (before ++ (c ++ zeros n))
set-zeros [] c n = overwrite-zeros c n
set-zeros (x ∷ before) c n = rw (set-zeros before c n) refl

put-step :
    (offset : ℕ) (c : Text) (cs : List Text) (body next : Text)
    → set offset c body ≡ some next
    → put_chunks offset (c ∷ cs) body ≡ put_chunks (offset + length c) cs next
put-step offset c cs body next h = rw (h, put_chunks) refl

put_chunks-zeros :
    (before : Text) (cs : List Text)
    → put_chunks (length before) cs (before ++ zeros (length (join cs))) ≡ some (before ++ join cs)
put_chunks-zeros before [] = refl
put_chunks-zeros before (c ∷ cs) =
    put-step (length before) c cs (before ++ zeros (length (c ++ join cs)))
      ((before ++ c) ++ zeros (length (join cs)))
      (rw (length-append c (join cs), append_assoc before c (zeros (length (join cs))))
        (set-zeros before c (length (join cs))))
    ∙ rw (sym (length-append before c), sym (append_assoc before c (join cs)))
        (put_chunks-zeros (before ++ c) cs)

join_chunks-join : (cs : List Text) → join_chunks cs (length (join cs)) ≡ some (join cs)
unfolding join_chunks
join_chunks-join cs = put_chunks-zeros [] cs

-- The rounds of an undisturbed reading.
abbrev pub Undisturbed : ℕ → List BodyRead → Text → Type 0
Undisturbed max_bytes rs body =
    (cs : List Text) × (more : List BodyRead) × (rs ≡ map (piece false) cs ++ finish false ∷ more)
    × (body ≡ join cs)
    × (length body ≤ max_bytes)

-- The count is that of the chunks.
counted :
    (before : List Text) (c : Text)
    → length (join before) + length c ≡ length (join (before ++ c ∷ []))
counted before c = rw (join-append before c) (sym (length-append (join before) c))

regroup :
    (before : List Text) (c : Text) (cs : List Text)
    → join (before ++ c ∷ []) ++ join cs ≡ join before ++ join (c ∷ cs)
regroup before c cs = rw (join-append before c) (append_assoc (join before) c (join cs))

undisturbed-ok :
    (n : ℕ) (before cs : List Text) (more : List BodyRead)
    → length (join before ++ join cs) ≤ n
    → read_body n before (length (join before)) (map (piece false) cs ++ finish false ∷ more)
      ≡ some (ok (join before ++ join cs))
unfolding read_body
undisturbed-ok n before [] more h = rw (join_chunks-join before, append-nil (join before)) refl
undisturbed-ok n before (c ∷ cs) more h =
    let whole = regroup before c cs in
    let ih = undisturbed-ok n (before ++ c ∷ []) cs more (rw whole h) in
    let fits : ltb n (length (join before) + length c) ≡ false =
      ground (arith, h, length-append (join before) (c ++ join cs), length-append c (join cs)) in
    rw (fits, counted before c, ih, whole) refl

ok-undisturbed :
    (n : ℕ) (before : List Text) (rs : List BodyRead) (body : Text)
    → length (join before) ≤ n
    → read_body n before (length (join before)) rs ≡ some (ok body)
    → (cs : List Text) × (more : List BodyRead) × (rs ≡ map (piece false) cs ++ finish false ∷ more)
      × (body ≡ join before ++ join cs)
      × (length body ≤ n)
unfolding read_body
ok-undisturbed n before (finish false ∷ rs) body le h =
    let same : join before ≡ body = cc (rw (join_chunks-join before) at h) in
    ([], rs, refl, rw (append-nil (join before)) (sym same), subst (λ b. length b ≤ n) same le)
ok-undisturbed n before (piece false c ∷ rs) body le h =
    elim (Bool-cases (ltb n (length (join before) + length c))) [
      | inl over ↦ absurd (cc (rw over at h))
      | inr fits ↦
          let counts = counted before c in
          let (cs, more, e, whole, short) =
            ok-undisturbed n (before ++ c ∷ []) rs body (ground (arith, fits, counts))
              (rw (fits, counts) at h) in
          (c ∷ cs, more, ap (λ r. piece false c ∷ r) e, whole ∙ regroup before c cs, short)
    ]
ok-undisturbed n before [] body le h = cc
ok-undisturbed n before (stopped ∷ rs) body le h = cc
ok-undisturbed n before (failure b ∷ rs) body le h = cc
ok-undisturbed n before (finish true ∷ rs) body le h = cc
ok-undisturbed n before (piece true c ∷ rs) body le h = cc

-- A body is given exactly when the reader gives chunks and then ends, with no abort seen and no
-- failure before, and the chunks are within the bound together; the body is then their whole, in order.
pub read_bounded_request_body-Undisturbed :
    (max_bytes : ℕ) (rs : List BodyRead) (body : Text)
    → (read_bounded_request_body max_bytes rs ≡ some (ok body)) ↔ Undisturbed max_bytes rs body
read_bounded_request_body-Undisturbed n rs body = (
  λ h. ok-undisturbed n [] rs body (omega arith) h,
  λ (cs, more, e, whole, short). rw (e, whole) (undisturbed-ok n [] cs more (rw whole at short)),
)
