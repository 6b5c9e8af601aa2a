-- ===== src/Restream/Sessions/Invariant.antt =====
-- What holds of the session table: the constraint of db/schema.sql on a row, and that a user has at
-- most one session that has not ended (apps/web/src/server/restream/store.ts).
use native.Mathlib.Decide.{ℕ_discrete}
use streambrew.Base.{
  ℕ, ◌≤◌, ◌≡◌, refl, ◌≢◌, inl, inr, Bool, true, ◌&&◌, List, [], ◌∷◌, map, Text, Option, none, arith,
  length, filterb, All, ◌==◌, ne→==, Bool-cases, if◌then◌else◌,
}
use streambrew.Restream.Tables.{SessionStatus, connecting, live, ended, Session}
use streambrew.Restream.Sessions.{is_active, end_user, is_hit, go_live, end_one}

-- CHECK on status, live_at and ended_at
abbrev pub Formed : SessionStatus → Option ℕ → Option ℕ → Type 0
Formed connecting l e = (l ≡ none) × (e ≡ none)
Formed live l e = (l ≢ none) × (e ≡ none)
Formed ended l e = e ≢ none

abbrev pub FormedRow : Session → Type 0
FormedRow s = Formed s.status s.live_at s.ended_at

abbrev pub active_of : ℕ → Session → Bool
active_of v s = s.user_id == v && is_active s.status

abbrev pub count_active : ℕ → List Session → ℕ
count_active v ss = length (filterb (active_of v) ss)

pub record IsValid (ss : List Session) : Type 0 where
  pub formed : All FormedRow ss
  pub one : (v : ℕ) → count_active v ss ≤ 1

All-map {ℓ κ} :
    {A : Type ℓ} (P : A → Type κ) (f : A → A)
    → ((a : A) → P a → P (f a))
    → (xs : List A) → All P xs
    → All P (map f xs)
All-map P f k [] h = tt
All-map P f k (x ∷ xs) h = (k x h.0, All-map P f k xs h.1)

end_user-FormedRow : (now u : ℕ) (s : Session) → FormedRow s → FormedRow (end_user now u s)
end_user-FormedRow now u s h = elim (Bool-cases (s.user_id == u && is_active s.status)) [
  | inl e ↦ rw e (λ q. cc)
  | inr e ↦ rw e h
]

end_one-FormedRow :
    (node : Text) (id now : ℕ) (s : Session) → FormedRow s → FormedRow (end_one node id now s)
end_one-FormedRow node id now s h = elim (Bool-cases (is_hit node id s)) [
  | inl e ↦ rw e (λ q. cc)
  | inr e ↦ rw e h
]

Formed-active : (t : SessionStatus) (l e : Option ℕ) → is_active t ≡ true → Formed t l e → e ≡ none
Formed-active connecting l e a h = h.1
Formed-active live l e a h = h.1
Formed-active ended l e a h = cc

go_live-FormedRow :
    (node : Text) (id now : ℕ) (s : Session) → FormedRow s → FormedRow (go_live node id now s)
go_live-FormedRow node id now s h = elim (Bool-cases (is_hit node id s)) [
  | inl e ↦ rw e ((λ q. cc), Formed-active s.status s.live_at s.ended_at (ground arith) h)
  | inr e ↦ rw e h
]

pub count-end_user :
    (now u v : ℕ) (ss : List Session)
    → count_active v (map (end_user now u) ss) ≡ (if v == u then 0 else count_active v ss)
count-end_user now u v [] = ground arith
count-end_user now u v (s ∷ ss) = ground (arith, count-end_user now u v ss)

count-go_live :
    (node : Text) (id now v : ℕ) (ss : List Session)
    → count_active v (map (go_live node id now) ss) ≡ count_active v ss
count-go_live node id now v [] = refl
count-go_live node id now v (s ∷ ss) = ground (arith, count-go_live node id now v ss)

count-end_one-le :
    (node : Text) (id now v : ℕ) (ss : List Session)
    → count_active v (map (end_one node id now) ss) ≤ count_active v ss
count-end_one-le node id now v [] = omega arith
count-end_one-le node id now v (s ∷ ss) = ground (arith, count-end_one-le node id now v ss)

pub end_user-IsValid :
    (now u : ℕ) (ss : List Session) → IsValid ss → IsValid (map (end_user now u) ss)
end_user-IsValid now u ss h = record {
  formed = All-map FormedRow (end_user now u) (end_user-FormedRow now u) ss h.formed;
  one = λ v. ground (arith, count-end_user now u v ss, h.one v);
}

pub insert-IsValid :
    (s : Session) (ss : List Session)
    → IsValid ss
    → FormedRow s
    → count_active s.user_id ss ≡ 0
    → IsValid (s ∷ ss)
insert-IsValid s ss h f z = record {
  formed = (f, h.formed);
  one = λ v. elim (ℕ_discrete s.user_id v) [
    | yes e ↦ let z' : count_active v ss ≡ 0 = rw (← e) z in ground arith
    | no n ↦ rw (ne→== s.user_id v n) (h.one v)
  ];
}

pub heartbeat-IsValid :
    (node : Text) (id now : ℕ) (ss : List Session)
    → IsValid ss
    → IsValid (map (go_live node id now) ss)
heartbeat-IsValid node id now ss h = record {
  formed = All-map FormedRow (go_live node id now) (go_live-FormedRow node id now) ss h.formed;
  one = λ v. rw (count-go_live node id now v ss) (h.one v);
}

pub end_session-IsValid :
    (node : Text) (id now : ℕ) (ss : List Session)
    → IsValid ss
    → IsValid (map (end_one node id now) ss)
end_session-IsValid node id now ss h = record {
  formed = All-map FormedRow (end_one node id now) (end_one-FormedRow node id now) ss h.formed;
  one = λ v. omega (arith, count-end_one-le node id now v ss, h.one v);
}
