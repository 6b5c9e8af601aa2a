-- ===== src/Http/Body.antt =====
-- The body of a request, read chunk by chunk up to a bound (apps/web/src/server/request-body.ts).
pub mod Whole
use streambrew.Base.{
  ℕ, zero, suc, ◌+◌, ◌-◌, ◌*◌, Bool, true, false, not, ◌&&◌, ◌||◌, List, [], ◌∷◌, ◌++◌, Text,
  Option, none, some, length, allb, ltb, leb, ◌==◌, if◌then◌else◌, Result, err, ok, guard, ◌>>◌,
}
use streambrew.Timing.Parse.{is_digit, max_safe_integer}

pub data BodyError : Type 0 where
  aborted invalid too_large : BodyError

-- Number(header), of digits
abbrev pub number : ℕ → Text → ℕ
number acc [] = acc
number acc (c ∷ s) = number (acc * 10 + (c - b'0')) s

-- /^\d+$/.test(header)
abbrev pub is_digits : Text → Bool
is_digits [] = false
is_digits (c ∷ s) = is_digit c && allb is_digit s

-- A number of digits is a safe integer when its exact value is: a larger one is rounded to 2 ^ 53 or
-- more.
unfoldable pub validate_content_length : Option Text → ℕ → Bool → Result BodyError (Unit {0})
validate_content_length none max_bytes require_positive = ok tt
validate_content_length (some header) max_bytes require_positive =
    guard (is_digits header) invalid
    >> guard
        (leb (number 0 header) max_safe_integer
          && not (require_positive && leb (number 0 header) 0))
        invalid
    >> guard (leb (number 0 header) max_bytes) too_large

-- body.set(chunk, offset), which throws a RangeError past the end.
abbrev pub overwrite : Text → Text → Option Text
overwrite body [] = some body
overwrite [] (c ∷ cs) = none
overwrite (b ∷ bs) (c ∷ cs) = elim (overwrite bs cs) [ some rest ↦ some (c ∷ rest) | none ↦ none ]

abbrev pub set : ℕ → Text → Text → Option Text
set zero chunk body = overwrite body chunk
set (suc offset) chunk [] = none
set (suc offset) chunk (b ∷ bs) = elim (set offset chunk bs) [
  | some rest ↦ some (b ∷ rest)
  | none ↦ none
]

abbrev pub zeros : ℕ → Text
zeros zero = []
zeros (suc n) = 0 ∷ zeros n

-- The loop of joinChunks.
abbrev pub put_chunks : ℕ → List Text → Text → Option Text
put_chunks offset [] body = some body
put_chunks offset (c ∷ cs) body = elim (set offset c body) [
  | some next ↦ put_chunks (offset + length c) cs next
  | none ↦ none
]

unfoldable pub join_chunks : List Text → ℕ → Option Text
join_chunks chunks total_bytes = put_chunks 0 chunks (zeros total_bytes)

-- What the loop meets in a round: an abort before it reads, or what the reader gives and whether the
-- signal is aborted by then.
pub data BodyRead : Type 0 where
  stopped : BodyRead
  piece : (is_aborted : Bool) → Text → BodyRead
  finish : (is_aborted : Bool) → BodyRead
  failure : (is_aborted : Bool) → BodyRead

-- The catch: an error other than the function's own is invalid, or aborted with the signal.
abbrev pub joined : Option Text → Result BodyError Text
joined (some body) = ok body
joined none = err invalid

-- The result, or none while the reader has given no more than these rounds.
unfoldable pub read_body : ℕ → List Text → ℕ → List BodyRead → Option (Result BodyError Text)
read_body max_bytes chunks total_bytes [] = none
read_body max_bytes chunks total_bytes (stopped ∷ rs) = some (err aborted)
read_body max_bytes chunks total_bytes (failure is_aborted ∷ rs) =
    some (err (if is_aborted then aborted else invalid))
read_body max_bytes chunks total_bytes (finish is_aborted ∷ rs) =
    some (if is_aborted then err aborted else joined (join_chunks chunks total_bytes))
read_body max_bytes chunks total_bytes (piece is_aborted c ∷ rs) =
    let rest = read_body max_bytes (chunks ++ c ∷ []) (total_bytes + length c) rs in
    if is_aborted
    then some (err aborted)
    else if ltb max_bytes (total_bytes + length c)
    then some (err too_large)
    else rest

abbrev pub read_bounded_request_body : ℕ → List BodyRead → Option (Result BodyError Text)
read_bounded_request_body max_bytes rs = read_body max_bytes [] 0 rs
