-- ===== src/Utils.antt =====
-- src/qbt_rules/utils.py: tags, durations, sizes and timestamps. Texts are walked by their code points;
-- letters and digits are those of ASCII.
pub mod Sizes
pub mod Ages
mod Tests
use Prim.Native.Char.{Char, code}
use qbt_rules.Prelude.{
  ℕ, zero, suc, ◌+◌, ◌-◌, ◌*◌, ◌/◌, ◌^◌, ◌≤◌, String, ◌≡◌, refl, Bool, true, false, ◌&&◌, ◌||◌,
  Option, none, some, List, [], ◌∷◌, ◌++◌, map, not, leb, ltb, ◌==◌, if◌then◌else◌, str_eq, is_some,
  keep,
}
use qbt_rules.Prelude.Int.{ℤ, pos, negsuc}

abbrev pub codes : String → List ℕ
codes String.[] = []
codes (String.◌∷◌ ch rest) = code ch ∷ codes rest

-- `str.isspace`
unfoldable pub is_space : ℕ → Bool
is_space c =
    (leb 9 c && leb c 13)
    || (leb 28 c && leb c 32)
    || c == 133
    || c == 160
    || c == 5760
    || (leb 8192 c && leb c 8202)
    || c == 8232
    || c == 8233
    || c == 8239
    || c == 8287
    || c == 12288

abbrev pub is_digit : ℕ → Bool
is_digit c = leb b'0' c && leb c b'9'

abbrev pub is_letter : ℕ → Bool
is_letter c = (leb b'a' c && leb c b'z') || (leb b'A' c && leb c b'Z')

unfoldable pub to_lower : ℕ → ℕ
to_lower c = if leb b'A' c && leb c b'Z' then c + 32 else c

-- `s.strip()`
unfoldable pub strip_left : String → String
unfolding is_space
strip_left String.[] = ""
strip_left (String.◌∷◌ c s) =
    let rest = strip_left s in if is_space (code c) then rest else String.◌∷◌ c s

unfoldable pub strip_right : String → String
unfolding is_space
strip_right String.[] = ""
strip_right (String.◌∷◌ c s) =
    let rest = strip_right s in
    if is_space (code c) && str_eq rest "" then "" else String.◌∷◌ c rest

unfoldable pub strip : String → String
unfolding strip_left strip_right
strip s = strip_right (strip_left s)

-- `s.split(",")`: the first part, and the parts after it.
abbrev pub add_char : Char → String × List String → String × List String
add_char c (first, others) = (String.◌∷◌ c first, others)

unfoldable pub split_first : ℕ → String → String × List String
split_first sep String.[] = ("", [])
split_first sep (String.◌∷◌ c s) =
    let rest = split_first sep s in if code c == sep then ("", rest.0 ∷ rest.1) else add_char c rest

unfoldable pub split : ℕ → String → List String
unfolding split_first
split sep s = (split_first sep s).0 ∷ (split_first sep s).1

-- `[tag.strip() for tag in tags_str.split(",") if tag.strip()]`
unfoldable pub parse_tag_text : String → List String
unfolding split strip
parse_tag_text s =
    if str_eq s "" then [] else keep (λ t. not (str_eq t "")) (map strip (split b',' s))

-- `s.split(".", 1)`, `none` if there is no dot
abbrev pub add_front : Char → Option (String × String) → Option (String × String)
add_front c none = none
add_front c (some (a, b)) = some (String.◌∷◌ c a, b)

unfoldable pub split_dot : String → Option (String × String)
split_dot String.[] = none
split_dot (String.◌∷◌ c s) =
    let rest = split_dot s in if code c == b'.' then some ("", s) else add_front c rest

unfoldable pub is_prefix : List ℕ → List ℕ → Bool
is_prefix [] s = true
is_prefix (c ∷ p) [] = false
is_prefix (c ∷ p) (d ∷ s) = c == d && is_prefix p s

-- `p in s`
unfoldable pub is_infix : List ℕ → List ℕ → Bool
unfolding is_prefix
is_infix p [] = is_prefix p []
is_infix p (d ∷ s) = is_prefix p (d ∷ s) || is_infix p s

unfoldable pub contains : String → String → Bool
unfolding is_infix
contains p s = is_infix (codes p) (codes s)

unfoldable pub starts_with : String → String → Bool
unfolding is_prefix
starts_with s p = is_prefix (codes p) (codes s)

unfoldable pub drop_space : List ℕ → List ℕ
unfolding is_space
drop_space [] = []
drop_space (c ∷ s) = let rest = drop_space s in if is_space c then rest else c ∷ s

-- `\d+`: the digits' value and what follows them, `none` without a digit.
unfoldable pub take_digits : ℕ → List ℕ → ℕ × List ℕ
take_digits n [] = (n, [])
take_digits n (c ∷ s) =
    let rest = take_digits (n * 10 + (c - b'0')) s in if is_digit c then rest else (n, c ∷ s)

unfoldable pub match_number : List ℕ → Option (ℕ × List ℕ)
unfolding take_digits
match_number [] = none
match_number (c ∷ s) = if is_digit c then some (take_digits 0 (c ∷ s)) else none

abbrev pub first_prefix : List (String × ℕ) → List ℕ → ℕ
first_prefix [] s = 0
first_prefix ((unit, seconds) ∷ units) s =
    let rest = first_prefix units s in if is_prefix (codes unit) s then seconds else rest

-- The units in the order of the pattern, with their `multipliers`.
abbrev pub duration_units : List (String × ℕ)
duration_units =
    ("second", 1)
    ∷ ("minute", 60)
    ∷ ("hour", 3600)
    ∷ ("day", 86400)
    ∷ ("week", 604800)
    ∷ ("month", 2592000)
    ∷ ("year", 31536000)
    ∷ []

-- The match on a text that is lowered and stripped: 0 if it does not match.
unfoldable pub match_duration : List ℕ → ℕ
unfolding match_number drop_space is_prefix
match_duration s = elim (match_number s) [
  | none ↦ 0
  | some (amount, rest) ↦ amount * first_prefix duration_units (drop_space rest)
]

unfoldable pub parse_duration : String → ℕ
unfolding match_duration strip to_lower
parse_duration duration = match_duration (map to_lower (codes (strip duration)))
