-- ===== src/Timing/RoundTrip.antt =====
-- A printed time reads back as itself (packages/src/video-timing.ts).
use streambrew.Base.{
  ℕ, zero, suc, ◌+◌, ◌-◌, ◌*◌, ◌/◌, ◌%◌, ◌≤◌, ◌<◌, ◌≡◌, refl, sym, ap, ◌∙◌, inl, inr, Bool, true,
  false, [], ◌∷◌, ◌++◌, Text, some, arith, All, All-append, append-nil, ltb, Bool-cases,
  if◌then◌else◌, le→leb,
}
use streambrew.Timing.Format.{
  Parts, get_video_time_parts, digits_fuel, to_string, pad_start_2, format_parts, format_video_time,
}
use streambrew.Timing.Parse.{
  is_digit, digits_colon, two_digits, max_safe_integer, safe, third_part, second_part, first_part,
  is_space, trim_start, trim_end, parse_video_time,
}

digits_scan :
    (f n : ℕ) (seen : Bool) (acc : Text)
    → n < f
    → digits_colon 0 seen (digits_fuel f n acc) ≡ digits_colon n true acc
digits_scan zero n seen acc h = elim h [ ]
digits_scan (suc f) n seen acc h = elim (Bool-cases (ltb n 10)) [
  | inl e ↦ rw e (one_digit e)
  | inr e ↦ rw e (digits_scan f (n / 10) seen ((b'0' + n % 10) ∷ acc) (ground arith) ∙ next_digit)
]
  where
    one_digit : ltb n 10 ≡ true → digits_colon 0 seen ((b'0' + n) ∷ acc) ≡ digits_colon n true acc
    one_digit e =
        let d : is_digit (b'0' + n) ≡ true = ground arith in
        let v : 0 * 10 + (b'0' + n - b'0') ≡ n = omega arith in rw (d, v)

    next_digit : digits_colon (n / 10) true ((b'0' + n % 10) ∷ acc) ≡ digits_colon n true acc
    next_digit =
        let d : is_digit (b'0' + n % 10) ≡ true = ground arith in
        let v : n / 10 * 10 + (b'0' + n % 10 - b'0') ≡ n = omega arith in rw (d, v)

digits_fuel-append :
    (f n : ℕ) (acc t : Text) → digits_fuel f n acc ++ t ≡ digits_fuel f n (acc ++ t)
digits_fuel-append zero n acc t = refl
digits_fuel-append (suc f) n acc t =
    ground (arith, digits_fuel-append f (n / 10) ((b'0' + n % 10) ∷ acc) t)

number_scan : (n : ℕ) (s : Text) → digits_colon 0 false (to_string n ++ b':' ∷ s) ≡ some (n, s)
unfolding to_string
number_scan n s =
    ap (digits_colon 0 false) (digits_fuel-append (suc n) n [] (b':' ∷ s))
    ∙ digits_scan (suc n) n false (b':' ∷ s) (omega arith)

-- The text of a number below 60, filled up to two digits.
pad_lem : (m : ℕ) → m < 60 → pad_start_2 (to_string m) ≡ (b'0' + m / 10) ∷ (b'0' + m % 10) ∷ []
unfolding to_string
pad_lem zero h = refl
pad_lem (suc m) h = elim (Bool-cases (ltb (suc m) 10)) [
  | inl e ↦
      let a : suc m / 10 ≡ 0 = ground arith in
      let b : suc m % 10 ≡ suc m = ground arith in rw (e, a, b)
  | inr e ↦ let c : ltb (suc m / 10) 10 ≡ true = ground arith in rw e (rw c)
]

two_digits_lem :
    (m : ℕ) (s : Text) → m < 60 → two_digits (pad_start_2 (to_string m) ++ s) ≡ some (m, s)
two_digits_lem m s h = ap (λ t. two_digits (t ++ s)) (pad_lem m h) ∙ ground arith

-- Digits and colons are no white space.
abbrev Plain : Text → Type 0
Plain = All λ c. is_space c ≡ false

digits_fuel-Plain : (f n : ℕ) (acc : Text) → Plain acc → Plain (digits_fuel f n acc)
digits_fuel-Plain zero n acc h = h
digits_fuel-Plain (suc f) n acc h = elim (Bool-cases (ltb n 10)) [
  | inl e ↦ rw e (ground arith, h)
  | inr e ↦ rw e (digits_fuel-Plain f (n / 10) ((b'0' + n % 10) ∷ acc) (ground arith, h))
]

to_string-Plain : (n : ℕ) → Plain (to_string n)
unfolding to_string
to_string-Plain n = digits_fuel-Plain (suc n) n [] tt

pad-Plain : (s : Text) → Plain s → Plain (pad_start_2 s)
pad-Plain [] h = (refl, (refl, tt))
pad-Plain (c ∷ []) h = (refl, h)
pad-Plain (c ∷ d ∷ s) h = h

trim_start-Plain : (s : Text) → Plain s → trim_start s ≡ s
trim_start-Plain [] h = refl
trim_start-Plain (c ∷ s) h = rw h.0

trim_end-Plain : (s : Text) → Plain s → trim_end s ≡ s
trim_end-Plain [] h = refl
trim_end-Plain (c ∷ []) h = rw h.0
trim_end-Plain (c ∷ d ∷ s) h = rw (trim_end-Plain (d ∷ s) h.1)

format_parts-Plain : (p : Parts) → Plain (format_parts p)
format_parts-Plain p = elim (Bool-cases (ltb 0 p.hours)) [
  | inl e ↦ rw e (
      All-append _ (to_string p.hours) _ (to_string-Plain p.hours) (
        refl,
        All-append _ (pad_start_2 (to_string p.minutes)) _ (pad-Plain _ (to_string-Plain p.minutes))
            (refl, pad-Plain _ (to_string-Plain p.seconds)),
      ))
  | inr e ↦ rw e (
      All-append _ (to_string p.minutes) _ (to_string-Plain p.minutes)
        (refl, pad-Plain _ (to_string-Plain p.seconds)))
]

parse_parts :
    (p : Parts)
    → p.minutes < 60
    → p.seconds < 60
    → parse_video_time (format_parts p) ≡ (
        if ltb 0 p.hours
        then safe (p.hours * 3600 + p.minutes * 60 + p.seconds)
        else safe (p.minutes * 60 + p.seconds))
unfolding parse_video_time
parse_parts p m s = untrimmed ∙ scanned
  where
    untrimmed :
        first_part (digits_colon 0 false (trim_end (trim_start (format_parts p))))
        ≡ first_part (digits_colon 0 false (format_parts p))
    untrimmed =
        ap (λ t. first_part (digits_colon 0 false (trim_end t)))
          (trim_start-Plain (format_parts p) (format_parts-Plain p))
        ∙ ap (λ t. first_part (digits_colon 0 false t))
            (trim_end-Plain (format_parts p) (format_parts-Plain p))

    scanned : first_part (digits_colon 0 false (format_parts p)) ≡ (
        if ltb 0 p.hours
        then safe (p.hours * 3600 + p.minutes * 60 + p.seconds)
        else safe (p.minutes * 60 + p.seconds))
    scanned = elim (Bool-cases (ltb 0 p.hours)) [
      | inl e ↦ rw e (
          ap first_part (number_scan p.hours _)
          ∙ ap (second_part p.hours) (two_digits_lem p.minutes _ m)
          ∙ ap (third_part p.hours p.minutes) (
              ap two_digits (sym (append-nil (pad_start_2 (to_string p.seconds))))
              ∙ two_digits_lem p.seconds [] s))
      | inr e ↦ rw e (
          ap first_part (number_scan p.minutes _)
          ∙ ap (second_part p.minutes) (
              ap two_digits (sym (append-nil (pad_start_2 (to_string p.seconds))))
              ∙ two_digits_lem p.seconds [] s))
    ]

-- Every whole number of seconds that a JavaScript number holds exactly is read back from its text.
pub parse-format :
    (total : ℕ) → total ≤ max_safe_integer → parse_video_time (format_video_time total) ≡ some total
unfolding format_video_time
parse-format total h = parse_parts (get_video_time_parts total) (omega arith) (omega arith) ∙ whole
  where
    whole :
        (if ltb 0 (total / 3600)
          then safe (total / 3600 * 3600 + total % 3600 / 60 * 60 + total % 60)
          else safe (total % 3600 / 60 * 60 + total % 60))
        ≡ some total
    whole = elim (Bool-cases (ltb 0 (total / 3600))) [
      | inl e ↦
          let same : total / 3600 * 3600 + total % 3600 / 60 * 60 + total % 60 ≡ total =
            omega arith in
          rw (e, same, le→leb total max_safe_integer h)
      | inr e ↦
          let none_left : total / 3600 ≡ 0 = ground arith in
          let same : total % 3600 / 60 * 60 + total % 60 ≡ total = omega arith in
          rw (e, same, le→leb total max_safe_integer h)
    ]
