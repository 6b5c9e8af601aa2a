-- ===== src/Http/Ndjson.antt =====
-- Lines read from a stream of chunks (apps/web/src/lib/ndjson.ts). A chunk stands here as the text
-- that the TextDecoder makes of it, and the last one as what the decoder has left.
pub mod Chunks
use streambrew.Base.{
  ℕ, Bool, true, false, not, List, [], ◌∷◌, ◌++◌, Text, length, allb, ◌==◌, ltb, if◌then◌else◌,
}
use streambrew.Timing.Parse.{is_space}

-- What the loop meets in a round: an abort before it reads, a chunk, the end, or a failed read, with
-- whether the signal is aborted by then.
pub data Read : Type 0 where
  aborted : Read
  chunk : Text → Read
  done : Text → Read
  failed : (is_aborted : Bool) → Read

pub data Ending : Type 0 where
  finished line_too_long read_failed reading : Ending

-- The lines that are given, in order, and how the reading ends. `reading` stands for a stream that
-- goes on after the rounds given.
pub record Lines : Type 0 where
  pub given : List Text
  pub ending : Ending

abbrev pub ends : Ending → Lines
ends e = record { given = []; ending = e }

abbrev pub cons_head : ℕ → List Text → List Text
cons_head c [] = (c ∷ []) ∷ []
cons_head c (l ∷ ls) = (c ∷ l) ∷ ls

-- buffer.split("\n")
unfoldable pub split : Text → List Text
split [] = [] ∷ []
split (c ∷ s) = let rest = split s in if c == b'\n' then [] ∷ rest else cons_head c rest

-- lines.slice(0, -1)
abbrev pub but_last : List Text → List Text
but_last [] = []
but_last (l ∷ []) = []
but_last (l ∷ m ∷ ls) = l ∷ but_last (m ∷ ls)

-- lines.at(-1) ?? ""
abbrev pub last_or_empty : List Text → Text
last_or_empty [] = []
last_or_empty (l ∷ []) = l
last_or_empty (l ∷ m ∷ ls) = last_or_empty (m ∷ ls)

-- line.trim().length === 0
abbrev pub is_blank : Text → Bool
is_blank l = allb is_space l

abbrev pub give : Text → Lines → Lines
give l r = if is_blank l then r else record r { given = l ∷ r.given }

-- The loop over the complete lines, and what follows it.
unfoldable pub give_lines : ℕ → List Text → Lines → Lines
give_lines max_length [] after = after
give_lines max_length (l ∷ ls) after =
    let rest = give_lines max_length ls after in
    if ltb max_length (length l) then ends line_too_long else give l rest

unfoldable pub read_ndjson_lines : ℕ → Text → List Read → Lines
read_ndjson_lines max_length buffer [] = ends reading
read_ndjson_lines max_length buffer (aborted ∷ rs) = ends finished
read_ndjson_lines max_length buffer (failed is_aborted ∷ rs) =
    ends (if is_aborted then finished else read_failed)
read_ndjson_lines max_length buffer (chunk t ∷ rs) =
    let lines = split (buffer ++ t) in
    let remainder = last_or_empty lines in
    let rest = read_ndjson_lines max_length remainder rs in
    give_lines max_length (but_last lines)
      (if ltb max_length (length remainder) then ends line_too_long else rest)
read_ndjson_lines max_length buffer (done t ∷ rs) =
    let lines = split (buffer ++ t) in
    let remainder = last_or_empty lines in
    give_lines max_length (but_last lines) (
      if ltb max_length (length remainder)
      then ends line_too_long
      else give remainder (ends finished))
