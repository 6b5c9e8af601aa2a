-- ===== src/Restream/Destinations/Renumber.antt =====
-- The renumbering loop of `deleteDestination` (apps/web/src/server/restream/store.ts).
use streambrew.Base.{
  ℕ, suc, ◌+◌, ◌≤◌, ◌<◌, ◌≡◌, refl, sym, ap, subst, ◌∙◌, ◌≢◌, List, [], ◌∷◌, ◌++◌, map,
  append_assoc, arith, length, All, All-mono, All-append, ◌==◌, eq→==, ne→==, if◌then◌else◌, ok,
}
use native.Mathlib.Decide.{dec_lt}
use streambrew.Restream.Tables.{Destination, max_destinations}
use streambrew.Restream.Destinations.{rows, move_to, place, renumber}
use streambrew.Restream.Destinations.Invariant.{
  Numbered, Ascending, UniqueIds, Ascending-le, UniqueIds-rows, UniqueIds-map,
}
use streambrew.Restream.Destinations.Place.{
  Apart, rows-move_to, rows-move_to_other, place_lem, Owned-of_rows, UniqueIds-mid,
  Apart-of_listing, map-append-mid,
}

-- What the loop makes of the rows that it has not yet reached.
abbrev pub renumbered : ℕ → List Destination → List Destination
renumbered i [] = []
renumbered i (d ∷ ds) = record d { position = i } ∷ renumbered (suc i) ds

-- The loop ends without a violated constraint. It numbers the rows that are left from `i` on, and
-- moves no other row of the user and no row of another user.
pub record Numbers (u i : ℕ) (front todo ds : List Destination) : Type 0 where
  pub result : List Destination
  pub runs : renumber i todo ds ≡ ok result
  pub listing : rows u result ≡ front ++ renumbered i todo
  pub unique : UniqueIds result
  pub others : (v : ℕ) → v ≢ u → rows v result ≡ rows v ds

snoc {ℓ} : {A : Type ℓ} (xs : List A) (y : A) (ys : List A) → (xs ++ y ∷ []) ++ ys ≡ xs ++ y ∷ ys
snoc xs y ys = append_assoc xs (y ∷ []) ys

-- One round: the head of the rows that are left goes to place `i`.
record Round (u i : ℕ) (front : List Destination) (d : Destination) (back ds : List Destination)
    : Type 0 where
  after : List Destination
  runs : (if d.position == i then ok ds else place d.destination_id i ds) ≡ ok after
  listing : rows u after ≡ front ++ record d { position = i } ∷ back
  unique : UniqueIds after
  others : (v : ℕ) → v ≢ u → rows v after ≡ rows v ds

module _ (u i : ℕ) (front : List Destination) (d : Destination) (back ds : List Destination)
    (e : rows u ds ≡ front ++ d ∷ back) (low : All (λ x. x.position < i) front)
    (up : Ascending i (d ∷ back)) (unique : UniqueIds ds) (room : i < max_destinations) where
  stays : d.position ≡ i → Round u i front d back ds
  stays same = record {
    after = ds;
    runs = rw (eq→== d.position i same);
    listing = e ∙ ap (λ p. front ++ record d { position = p } ∷ back) same;
    unique = unique;
    others = λ v n. refl;
  }

  moves : i < d.position → Round u i front d back ds
  moves lt =
      let mine = Owned-of_rows u ds front d back unique e in
      let ids : UniqueIds (front ++ d ∷ back) = subst UniqueIds e (UniqueIds-rows u ds unique) in
      let apart : All (Apart d.destination_id i d.position) (rows u ds) =
        subst (All (Apart d.destination_id i d.position)) (sym e)
          (Apart-of_listing i front d back ids low up.1) in
      let (before, behind) = UniqueIds-mid front d back ids in
      record {
        after = map (move_to d.destination_id i) ds;
        runs =
            rw (ne→== d.position i (omega arith))
              (place_lem u d.destination_id i d.position ds lt room mine apart);
        listing =
            rows-move_to u d.destination_id i d.position ds lt apart
            ∙ ap (map (move_to d.destination_id i)) e
            ∙ map-append-mid d.destination_id i front d back refl before behind;
        unique = UniqueIds-map (move_to d.destination_id i) (λ x. ground arith) ds unique;
        others = λ v n. rows-move_to_other u v d.destination_id i ds n mine;
      }

  round : Round u i front d back ds
  round = elim (dec_lt i d.position) [ yes lt ↦ moves lt | no ge ↦ stays (omega (arith, up.0)) ]

pub renumber-Numbers :
    (u i : ℕ) (front todo ds : List Destination)
    → rows u ds ≡ front ++ todo
    → All (λ x. x.position < i) front
    → Ascending i todo
    → UniqueIds ds
    → i + length todo ≤ max_destinations
    → Numbers u i front todo ds
unfolding renumber
renumber-Numbers u i front [] ds e low up unique room = record {
  result = ds;
  runs = refl;
  listing = e;
  unique = unique;
  others = λ v n. refl;
}
renumber-Numbers u i front (d ∷ back) ds e low up unique room =
    let r = round u i front d back ds e low up unique (omega arith) in
    let here : Destination = record d { position = i } in
    let later =
      renumber-Numbers u (suc i) (front ++ here ∷ []) back r.after
        (r.listing ∙ sym (snoc front here back))
        (All-append (λ x. x.position < suc i) front (here ∷ [])
          (All-mono _ _ (λ x p. omega arith) front low) (omega arith, tt))
        (Ascending-le (suc i) (suc d.position) back (omega (arith, up.0)) up.1) r.unique
        (omega arith) in
    record {
      result = later.result;
      runs = rw r.runs later.runs;
      listing = later.listing ∙ snoc front here (renumbered (suc i) back);
      unique = later.unique;
      others = λ v n. later.others v n ∙ r.others v n;
    }

pub renumbered-Numbered : (i : ℕ) (ds : List Destination) → Numbered i (renumbered i ds)
renumbered-Numbered i [] = tt
renumbered-Numbered i (d ∷ ds) = (refl, renumbered-Numbered (suc i) ds)

pub length-renumbered : (i : ℕ) (ds : List Destination) → length (renumbered i ds) ≡ length ds
length-renumbered i [] = refl
length-renumbered i (d ∷ ds) = ap suc (length-renumbered (suc i) ds)
