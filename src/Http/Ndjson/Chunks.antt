-- ===== src/Http/Ndjson/Chunks.antt =====
-- The lines of a stream do not depend on its chunks (apps/web/src/lib/ndjson.ts).
use streambrew.Base.{
  ℕ, ◌≤◌, ◌≡◌, ◌∙◌, refl, sym, ap, inl, inr, true, false, List, [], ◌∷◌, ◌++◌, map, append_assoc,
  Text, arith, length, ◌==◌, ltb, Bool-cases,
}
use streambrew.Http.Ndjson.{
  Read, chunk, done, Lines, ends, finished, line_too_long, cons_head, split, but_last,
  last_or_empty, give_lines, read_ndjson_lines,
}

-- The reading of a whole text at once: every piece between line feeds, the last one included.
unfoldable pub lines_of : ℕ → Text → Lines
lines_of max_length t = give_lines max_length (split t) (ends finished)

abbrev pub join : List Text → Text
join [] = []
join (t ∷ ts) = t ++ join ts

-- The pieces of a text are a first one and others.
split-cons : (t : Text) → (l : Text) × (ls : List Text) × (split t ≡ l ∷ ls)
unfolding split
split-cons [] = ([], [], refl)
split-cons (c ∷ s) =
    let (l, ls, e) = split-cons s in
    elim (Bool-cases (c == b'\n')) [
      | inl t ↦ ([], split s, rw t refl)
      | inr f ↦ (c ∷ l, ls, rw (f, e) refl)
    ]

-- A text that follows continues the last piece.
split-append :
    (a b : Text) → split (a ++ b) ≡ but_last (split a) ++ split (last_or_empty (split a) ++ b)
unfolding split
split-append [] b = refl
split-append (c ∷ a) b = elim (Bool-cases (c == b'\n')) [
  | inl t ↦ let (l, ls, e) = split-cons a in rw (t, split-append a b, e) refl
  | inr f ↦ let (l, ls, e) = split-cons a in rw (f, split-append a b, e) (onto l ls f)
]
  where
    onto :
        (l : Text) (ls : List Text)
        → (c == b'\n') ≡ false
        → cons_head c (but_last (l ∷ ls) ++ split (last_or_empty (l ∷ ls) ++ b))
          ≡ but_last ((c ∷ l) ∷ ls) ++ split (last_or_empty ((c ∷ l) ∷ ls) ++ b)
    onto l [] f = rw f refl
    onto l (m ∷ ls) f = refl

-- A piece holds no line feed.
split-last : (t : Text) → split (last_or_empty (split t)) ≡ last_or_empty (split t) ∷ []
unfolding split
split-last [] = refl
split-last (c ∷ t) = elim (Bool-cases (c == b'\n')) [
  | inl n ↦ let (l, ls, e) = split-cons t in let ih = split-last t in rw (n, e) (rw e at ih)
  | inr f ↦
      let (l, ls, e) = split-cons t in let ih = split-last t in rw (f, e) (onto l ls f (rw e at ih))
]
  where
    onto :
        (l : Text) (ls : List Text)
        → (c == b'\n') ≡ false
        → split (last_or_empty (l ∷ ls)) ≡ last_or_empty (l ∷ ls) ∷ []
        → split (last_or_empty ((c ∷ l) ∷ ls)) ≡ last_or_empty ((c ∷ l) ∷ ls) ∷ []
    onto l [] f h = rw (f, h) refl
    onto l (m ∷ ls) f h = h

give_lines-append :
    (max_length : ℕ) (ls ms : List Text) (after : Lines)
    → give_lines max_length (ls ++ ms) after
      ≡ give_lines max_length ls (give_lines max_length ms after)
unfolding give_lines
give_lines-append n [] ms after = refl
give_lines-append n (l ∷ ls) ms after = rw (give_lines-append n ls ms after) refl

-- The first piece of a text is no shorter than the piece that it begins with.
split_longer :
    (a b : Text)
    → split a ≡ a ∷ []
    → (l : Text) × (ls : List Text) × (split (a ++ b) ≡ l ∷ ls) × (length a ≤ length l)
unfolding split
split_longer [] b h = let (l, ls, e) = split-cons b in (l, ls, e, omega arith)
split_longer (c ∷ a) b h = elim (Bool-cases (c == b'\n')) [
  | inl t ↦ absurd (cc (rw t at h))
  | inr f ↦
      let (m, ms, d) = split-cons a in
      let whole : (c ∷ m) ∷ ms ≡ (c ∷ a) ∷ [] = rw (f, d) at h in
      let (l, ls, e, le) = split_longer a b (d ∙ cc whole) in
      (c ∷ l, ls, rw (f, e) refl, omega (arith, le))
]

but_last-last :
    (l : Text) (ls : List Text) → but_last (l ∷ ls) ++ last_or_empty (l ∷ ls) ∷ [] ≡ l ∷ ls
but_last-last l [] = refl
but_last-last l (m ∷ ls) = ap (λ ms. l ∷ ms) (but_last-last m ls)

split-pieces : (t : Text) → but_last (split t) ++ last_or_empty (split t) ∷ [] ≡ split t
split-pieces t = let (l, ls, e) = split-cons t in rw e (but_last-last l ls)

too_long :
    (n : ℕ) (a b : Text)
    → split a ≡ a ∷ []
    → ltb n (length a) ≡ true
    → lines_of n (a ++ b) ≡ ends line_too_long
unfolding lines_of give_lines
too_long n a b h t =
    let (l, ls, e, le) = split_longer a b h in
    let long : ltb n (length l) ≡ true = ground (arith, t, le) in rw (e, long) refl

lines_of-append :
    (n : ℕ) (a b : Text)
    → lines_of n (a ++ b)
      ≡ give_lines n (but_last (split a)) (lines_of n (last_or_empty (split a) ++ b))
unfolding lines_of
lines_of-append n a b = rw (split-append a b) (
    give_lines-append n (but_last (split a)) (split (last_or_empty (split a) ++ b)) (ends finished))

read-done :
    (n : ℕ) (b t : Text) (rs : List Read)
    → read_ndjson_lines n b (done t ∷ rs) ≡ lines_of n (b ++ t)
unfolding lines_of read_ndjson_lines give_lines
read-done n b t rs = sym (
    ap (λ ps. give_lines n ps (ends finished)) (sym (split-pieces (b ++ t)))
    ∙ give_lines-append n (but_last (split (b ++ t))) (last_or_empty (split (b ++ t)) ∷ [])
        (ends finished))

read-lines_of :
    (n : ℕ) (b : Text) (cs : List Text) (t : Text) (rs : List Read)
    → read_ndjson_lines n b (map chunk cs ++ done t ∷ rs) ≡ lines_of n (b ++ (join cs ++ t))
unfolding read_ndjson_lines
read-lines_of n b [] t rs = read-done n b t rs
read-lines_of n b (c ∷ cs) t rs =
    let r : Text = last_or_empty (split (b ++ c)) in
    let ih = read-lines_of n r cs t rs in
    let goal : lines_of n (b ++ ((c ++ join cs) ++ t))
        ≡ give_lines n (but_last (split (b ++ c))) (lines_of n (r ++ (join cs ++ t))) =
      rw (append_assoc c (join cs) t, sym (append_assoc b c (join cs ++ t)))
        (lines_of-append n (b ++ c) (join cs ++ t)) in
    elim (Bool-cases (ltb n (length r))) [
      | inl long ↦ rw (long, goal, too_long n r (join cs ++ t) (split-last (b ++ c)) long) refl
      | inr short ↦ rw (short, goal, ih) refl
    ]

-- However the stream is cut into chunks, the lines that are given, and whether the reading ends at
-- the end of the stream or at a line that is too long, are those of the whole text at once.
pub read_ndjson_lines-lines_of :
    (max_length : ℕ) (cs : List Text) (t : Text) (rs : List Read)
    → read_ndjson_lines max_length [] (map chunk cs ++ done t ∷ rs)
      ≡ lines_of max_length (join cs ++ t)
read_ndjson_lines-lines_of n cs t rs = read-lines_of n [] cs t rs
