-- ===== src/Utils/Sizes.antt =====
-- `parse_size`, the size tests and the timestamp tests of src/qbt_rules/utils.py.
use qbt_rules.Prelude.{
  ℕ, ◌+◌, ◌-◌, ◌*◌, ◌^◌, String, Bool, true, false, ◌&&◌, ◌||◌, Option, none, some, List, [], ◌∷◌,
  ◌++◌, leb, ltb, ◌==◌, if◌then◌else◌,
}
use qbt_rules.Prelude.Int.{ℤ, pos, negsuc}
use qbt_rules.Utils.{codes, is_digit, is_letter, is_prefix, drop_space, strip, parse_duration}

-- The longest run of characters that pass a test, and what follows it.
unfoldable pub span : (ℕ → Bool) → List ℕ → List ℕ × List ℕ
span p [] = ([], [])
span p (c ∷ s) = let rest = span p s in if p c then (c ∷ rest.0, rest.1) else ([], c ∷ s)

-- `(?:\.\d+)?` after the digits `n`
unfoldable pub match_fraction : List ℕ → List ℕ → List ℕ × List ℕ
unfolding span
match_fraction n [] = (n, [])
match_fraction n (c ∷ s) = elim ((span is_digit s).0) [
  | [] ↦ (n, c ∷ s)
  | d ∷ ds ↦ if c == b'.' then (n ++ c ∷ (span is_digit s).0, (span is_digit s).1) else (n, c ∷ s)
]

-- `(\d+(?:\.\d+)?)\s*([A-Za-z]+)?`: the number's text and the unit, which is "B" if there is none.
unfoldable pub match_size : List ℕ → Option (List ℕ × List ℕ)
unfolding match_fraction drop_space
match_size s = elim ((span is_digit s).0) [
  | [] ↦ none
  | d ∷ ds ↦
      let (amount, rest) = match_fraction (span is_digit s).0 (span is_digit s).1 in
      some
        (amount, elim ((span is_letter (drop_space rest)).0) [ [] ↦ b'B' ∷ [] | c ∷ cs ↦ c ∷ cs ])
]

abbrev pub same_codes : List ℕ → List ℕ → Bool
same_codes [] [] = true
same_codes (c ∷ s) (d ∷ t) = c == d && same_codes s t
same_codes _ _ = false

abbrev pub lookup_prefix : List (String × ℕ) → List ℕ → Option ℕ
lookup_prefix [] s = none
lookup_prefix ((p, m) ∷ ps) s =
    let rest = lookup_prefix ps s in if same_codes (codes p) s then some m else rest

abbrev pub after_prefix : List ℕ → List ℕ → List ℕ
after_prefix [] t = t
after_prefix (c ∷ q) [] = []
after_prefix (c ∷ q) (d ∷ t) = after_prefix q t

-- The first table entry that a unit begins with: its multiplier, and the rest of the unit.
abbrev pub begin_prefix : List (String × ℕ) → List ℕ → Option (ℕ × List ℕ)
begin_prefix [] s = none
begin_prefix ((p, m) ∷ ps) s =
    let rest = begin_prefix ps s in
    if is_prefix (codes p) s then some (m, after_prefix (codes p) s) else rest

abbrev pub iec_prefixes : List (String × ℕ)
iec_prefixes =
    ("Ki", 2 ^ 10) ∷ ("Mi", 2 ^ 20) ∷ ("Gi", 2 ^ 30) ∷ ("Ti", 2 ^ 40) ∷ ("Pi", 2 ^ 50) ∷ []

-- `si_prefixes` under the letters that are made canonical, in either case.
abbrev pub si_prefixes : List (String × ℕ)
si_prefixes =
    ("", 1)
    ∷ ("k", 10 ^ 3)
    ∷ ("K", 10 ^ 3)
    ∷ ("m", 10 ^ 6)
    ∷ ("M", 10 ^ 6)
    ∷ ("g", 10 ^ 9)
    ∷ ("G", 10 ^ 9)
    ∷ ("t", 10 ^ 12)
    ∷ ("T", 10 ^ 12)
    ∷ ("p", 10 ^ 15)
    ∷ ("P", 10 ^ 15)
    ∷ []

abbrev pub init_of : List ℕ → List ℕ
init_of [] = []
init_of (c ∷ []) = []
init_of (c ∷ d ∷ s) = c ∷ init_of (d ∷ s)

abbrev pub last_of : List ℕ → List ℕ
last_of [] = []
last_of (c ∷ []) = c ∷ []
last_of (c ∷ d ∷ s) = last_of (d ∷ s)

-- A unit's multiplier and its type. An unknown prefix counts as 1.
unfoldable pub read_unit : List ℕ → ℕ × List ℕ
unfolding is_prefix
read_unit unit = elim (begin_prefix iec_prefixes unit) [
  | some found ↦ found
  | none ↦ (elim (lookup_prefix si_prefixes (init_of unit)) [ none ↦ 1 | some m ↦ m ], last_of unit)
]

-- Only the type "b" stands for bits; any other is taken for bytes.
abbrev pub is_bits : List ℕ → Bool
is_bits t = same_codes t (b'b' ∷ [])

module _ (float_bytes : List ℕ → ℕ → Bool → ℕ) where
  -- `float_bytes t m bits` is Python's int(float(t) * m), or int(float(t) * m / 8) for bits.
  unfoldable pub parse_size : String → ℕ
  unfolding match_size read_unit
  parse_size size = elim (match_size (codes (strip size))) [
    | none ↦ 0
    | some (amount, unit) ↦
        let (multiplier, unit_type) = read_unit unit in
        float_bytes amount multiplier (is_bits unit_type)
  ]

  unfoldable pub is_larger_than : ℤ → String → Bool
  is_larger_than (pos size) human_size = ltb (parse_size human_size) size
  is_larger_than (negsuc size) human_size = false

  unfoldable pub is_smaller_than : ℤ → String → Bool
  is_smaller_than (pos size) human_size = ltb size (parse_size human_size)
  is_smaller_than (negsuc size) human_size = false

abbrev pub unset_timestamp_sentinel : ℕ
unset_timestamp_sentinel = 2 ^ 32 - 1

unfoldable pub is_unset_timestamp : ℤ → Bool
is_unset_timestamp (pos t) = t == 0 || leb unset_timestamp_sentinel t
is_unset_timestamp (negsuc t) = true

-- `now` is time.time() in microseconds.
abbrev pub age_limit : ℤ → String → ℕ
age_limit (pos t) duration = (t + parse_duration duration) * 1000000
age_limit (negsuc t) duration = 0

unfoldable pub is_older_than : ℕ → ℤ → String → Bool
unfolding is_unset_timestamp
is_older_than now timestamp duration =
    if is_unset_timestamp timestamp then false else ltb (age_limit timestamp duration) now

unfoldable pub is_newer_than : ℕ → ℤ → String → Bool
unfolding is_unset_timestamp
is_newer_than now timestamp duration =
    if is_unset_timestamp timestamp then false else ltb now (age_limit timestamp duration)
