-- ===== src/Timing/Parse.antt =====
-- Reading a time (packages/src/video-timing.ts): the pattern
-- `^(?:(\d+):([0-5]\d):([0-5]\d)|(\d+):([0-5]\d))$` as a scan of the trimmed text.
use streambrew.Base.{
  ℕ, ◌+◌, ◌-◌, ◌*◌, Bool, true, false, ◌&&◌, ◌||◌, [], ◌∷◌, Text, Option, none, some, leb, ◌==◌,
  if◌then◌else◌,
}

abbrev pub is_digit : ℕ → Bool
is_digit c = leb b'0' c && leb c b'9'

-- `(\d+):`: the number before the first colon, and what follows it.
abbrev pub digits_colon : ℕ → Bool → Text → Option (ℕ × Text)
digits_colon acc seen [] = none
digits_colon acc seen (c ∷ s) =
    let more = digits_colon (acc * 10 + (c - b'0')) true s in
    if is_digit c then more else if seen && c == b':' then some (acc, s) else none

-- `([0-5]\d)`, and what follows
abbrev pub two_digits : Text → Option (ℕ × Text)
two_digits (a ∷ b ∷ s) =
    if leb b'0' a && (leb a b'5' && is_digit b)
    then some ((a - b'0') * 10 + (b - b'0'), s)
    else none
two_digits _ = none

abbrev pub max_safe_integer : ℕ
max_safe_integer = 9_007_199_254_740_991

abbrev pub safe : ℕ → Option ℕ
safe total = if leb total max_safe_integer then some total else none

-- After `(\d+):([0-5]\d)`: the end, or `:([0-5]\d)` and the end.
abbrev pub third_part : ℕ → ℕ → Option (ℕ × Text) → Option ℕ
third_part first second (some (third, [])) = safe (first * 3600 + second * 60 + third)
third_part first second _ = none

abbrev pub second_part : ℕ → Option (ℕ × Text) → Option ℕ
second_part first none = none
second_part first (some (second, [])) = safe (first * 60 + second)
second_part first (some (second, c ∷ s)) =
    if c == b':' then third_part first second (two_digits s) else none

abbrev pub first_part : Option (ℕ × Text) → Option ℕ
first_part none = none
first_part (some (first, s)) = second_part first (two_digits s)

-- The white space and line ends that `trim` takes off.
abbrev pub is_space : ℕ → Bool
is_space c =
    (leb 9 c && leb c 13)
    || (c == 32
        || (c == 0xa0
            || (c == 0x1680
                || ((leb 0x2000 c && leb c 0x200a)
                    || (c == 0x2028
                        || (c == 0x2029
                            || (c == 0x202f || (c == 0x205f || (c == 0x3000 || c == 0xfeff)))))))))

abbrev pub trim_start : Text → Text
trim_start [] = []
trim_start (c ∷ s) = if is_space c then trim_start s else c ∷ s

abbrev pub trim_end : Text → Text
trim_end [] = []
trim_end (c ∷ s) = elim (trim_end s) [ [] ↦ if is_space c then [] else c ∷ [] | d ∷ r ↦ c ∷ d ∷ r ]

unfoldable pub parse_video_time : Text → Option ℕ
parse_video_time value = first_part (digits_colon 0 false (trim_end (trim_start value)))
