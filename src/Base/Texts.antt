-- ===== src/Base/Texts.antt =====
-- The characters of a text, which is a list of UTF-16 code units.
use Prim.Native.Nat.{ℕ, ◌+◌}
use mathlib.Core.Bool.{Bool, true, false, not, ◌&&◌}
use mathlib.Core.List.{[], ◌∷◌}
use streambrew.Base.Tests.{leb, ◌==◌, if◌then◌else◌}
use streambrew.Base.Lists.{Text}

-- A leading surrogate, which is the first half of a pair, and a trailing one.
abbrev pub is_leading : ℕ → Bool
is_leading c = leb 0xd800 c && leb c 0xdbff

abbrev pub is_trailing : ℕ → Bool
is_trailing c = leb 0xdc00 c && leb c 0xdfff

-- The code points behind a unit that does or does not lead: the second half of a pair is none.
abbrev code_points : Bool → Text → ℕ
code_points led [] = 0
code_points led (c ∷ s) = (if led && is_trailing c then 0 else 1) + code_points (is_leading c) s

-- char_length of the database
abbrev pub char_length : Text → ℕ
char_length s = code_points false s

abbrev begins_trailing : Text → Bool
begins_trailing [] = false
begins_trailing (c ∷ s) = is_trailing c

-- A surrogate that is not half of a pair gives way to U+FFFD.
abbrev unit_of : Bool → ℕ → Text → ℕ
unit_of led c s =
    if is_leading c
    then (if begins_trailing s then c else 0xfffd)
    else if is_trailing c && not led
    then 0xfffd
    else c

abbrev replaced : Bool → Text → Text
replaced led [] = []
replaced led (c ∷ s) = unit_of led c s ∷ replaced (is_leading c) s

-- String.prototype.toWellFormed
abbrev pub to_well_formed : Text → Text
to_well_formed s = replaced false s

-- ltrim of the database, which takes off spaces only
abbrev pub without_spaces : Text → Text
without_spaces [] = []
without_spaces (c ∷ s) = if c == b' ' then without_spaces s else c ∷ s

abbrev spaces_off : Text → Text
spaces_off [] = []
spaces_off (c ∷ s) =
    let rest = spaces_off s in
    elim rest [ [] ↦ if c == b' ' then [] else c ∷ [] | d ∷ t ↦ c ∷ d ∷ t ]

-- trim(BOTH FROM …)
abbrev pub trim_both : Text → Text
trim_both s = spaces_off (without_spaces s)

-- The database takes no U+0000.
abbrev pub is_storable : Text → Bool
is_storable [] = true
is_storable (c ∷ s) = not (c == 0) && is_storable s

-- The CHECK on a label: 1 to 64 characters within its spaces.
abbrev pub label_check : Text → Bool
label_check s =
    is_storable s && (leb 1 (char_length (trim_both s)) && leb (char_length (trim_both s)) 64)

abbrev pub starts_with : Text → Text → Bool
starts_with s [] = true
starts_with [] (c ∷ prefix) = false
starts_with (d ∷ s) (c ∷ prefix) = d == c && starts_with s prefix
