-- ===== src/Validation/Values.antt =====
-- The linter's checks of single values (src/qbt_rules/rules_validation.py: `effective`, `bool_value`,
-- `value`), with ${vars.*} filled in as the resolver fills it in.
use Prim.Native.Char.{Char, code}
use qbt_rules.Prelude.{
  ℕ, zero, suc, String, Bool, true, false, ◌&&◌, ◌||◌, Option, none, some, List, [], ◌∷◌, not, any,
  map, ◌==◌, str_eq, str_append, is_some, if◌then◌else◌,
}
use qbt_rules.Value.{Number, Value, null, bool, str, list, Fields, get}
use qbt_rules.Utils.{
  codes, contains, starts_with, is_letter, is_digit, is_prefix, drop_space, strip, to_lower,
  match_number, duration_units, split_dot,
}
use qbt_rules.Utils.Sizes.{span, match_fraction, same_codes}
use qbt_rules.Conditions.{Result, ok, err, Runtime}
use qbt_rules.Conditions.Operators.{to_str, to_float}
use qbt_rules.Resolver.Tokens.{drop_prefix, match_token, token_rest, segments}
use qbt_rules.Schema.{
  Kind, any_kind, string_kind, regex_kind, list_kind, number_kind, size_kind, duration_kind,
}
use qbt_rules.Validation.{
  error, warning, Place, runtime_token, not_number, not_duration, not_size, means_bits,
  invalid_regex, not_text, false_text, not_bool, Report, clean, add, ◌<+>◌,
}

-- `[^}]*\}`: what stands before the brace, and after it
unfoldable pub until_brace : String → Option (String × String)
until_brace String.[] = none
until_brace (String.◌∷◌ c s) =
    let rest = until_brace s in
    if code c == b'}'
    then some ("", s)
    else elim rest [ none ↦ none | some (a, b) ↦ some (String.◌∷◌ c a, b) ]

-- `\$\{vars\.([^}]+)\}` at the start of a text: the name, and the rest of the text
unfoldable pub var_token : String → Option (String × String)
unfolding until_brace drop_prefix
var_token s = elim (drop_prefix "${vars." s) [
  | none ↦ none
  | some t ↦ (elim (until_brace t) [
    | none ↦ none
    | some (name, rest) ↦ if str_eq name "" then none else some (name, rest)
  ])
]

-- _WHOLE_VAR_TOKEN; `$` also stands before a newline at the end.
unfoldable pub whole_var_token : String → Option String
unfolding var_token
whole_var_token s = elim (var_token s) [
  | none ↦ none
  | some (name, rest) ↦ if str_eq rest "" || str_eq rest "\n" then some name else none
]

abbrev lower : String → List ℕ
lower s = map to_lower (codes s)

unfoldable pub is_duration : Value → Bool
unfolding match_number drop_space is_prefix strip to_lower
is_duration (str s) = elim (match_number (map to_lower (codes (strip s)))) [
  | none ↦ false
  | some (amount, rest) ↦ any (λ u. is_prefix (codes (u.0)) (drop_space rest)) duration_units
]
is_duration _ = false

abbrev size_prefixes : List String
size_prefixes =
    "" ∷ "k" ∷ "K" ∷ "m" ∷ "M" ∷ "g" ∷ "G" ∷ "t" ∷ "T" ∷ "p" ∷ "P" ∷ "Ki" ∷ "Mi" ∷ "Gi" ∷ "Ti"
    ∷ "Pi" ∷ []

-- `unit in _SIZE_UNITS`
unfoldable pub is_size_unit : List ℕ → Bool
is_size_unit unit =
    any
      (λ p.
        same_codes (codes (str_append p "B")) unit || same_codes (codes (str_append p "b")) unit)
      size_prefixes

-- _SIZE_PATTERN: the unit, [] where there is none
unfoldable pub size_unit : List ℕ → Option (List ℕ)
unfolding drop_space match_fraction span
size_unit s = elim ((span is_digit (drop_space s)).0) [
  | [] ↦ none
  | d ∷ ds ↦
      let after =
        (match_fraction (span is_digit (drop_space s)).0 (span is_digit (drop_space s)).1).1 in
      (elim (drop_space (span is_letter (drop_space after)).1) [
        | [] ↦ some ((span is_letter (drop_space after)).0)
        | c ∷ cs ↦ none
      ])
]

unfoldable pub ends_in_b : List ℕ → Bool
ends_in_b [] = false
ends_in_b (c ∷ []) = c == b'b'
ends_in_b (c ∷ d ∷ s) = ends_in_b (d ∷ s)

abbrev runtime_path : Option String → Bool
runtime_path none = false
runtime_path (some path) = is_some (split_dot path)

-- _RUNTIME_TOKEN at the start of a text
unfoldable runtime_here : String → Bool
unfolding drop_prefix segments split_dot starts_with
runtime_here s = elim (drop_prefix "${" s) [
  | none ↦ false
  | some t ↦ not (starts_with t "vars." || starts_with t "rule.") && runtime_path (segments false t)
]

-- `_RUNTIME_TOKEN.search(value)`
unfoldable pub has_runtime_token : String → Bool
unfolding runtime_here
has_runtime_token String.[] = false
has_runtime_token (String.◌∷◌ c s) = runtime_here (String.◌∷◌ c s) || has_runtime_token s

abbrev falsy_strings : List String
falsy_strings = "false" ∷ "no" ∷ "off" ∷ "0" ∷ "n" ∷ []

unfoldable pub is_falsy_text : String → Bool
unfolding strip to_lower
is_falsy_text s = any (λ f. same_codes (codes f) (lower (strip s))) falsy_strings

-- What `substitute` makes of a token: the text, and whether the variable is there.
abbrev from_var : Runtime → String → Option Value → String × Bool
from_var rt token none = (token, false)
from_var rt token (some v) = (to_str rt v, true)

module _ (rt : Runtime) (vars : Fields) where
  abbrev substituted : Option String → Char → String × Bool
  substituted none c = (String.◌∷◌ c "", true)
  substituted (some path) c =
      let token = str_append "${" (str_append path "}") in
      elim (drop_prefix "vars." path) [
        | none ↦ (token, false)
        | some name ↦ from_var rt token (get name vars)
      ]

  -- `TOKEN_PATTERN.sub(substitute, value)`, and whether every variable was known
  unfoldable pub fill_vars : ℕ → String → String × Bool
  unfolding match_token drop_prefix get
  fill_vars skip String.[] = ("", true)
  fill_vars (suc skip) (String.◌∷◌ c s) = fill_vars skip s
  fill_vars zero (String.◌∷◌ c s) =
      let (front, front_known) = substituted (match_token (String.◌∷◌ c s)) c in
      let (rest, rest_known) = fill_vars (token_rest (match_token (String.◌∷◌ c s))) s in
      (str_append front rest, front_known && rest_known)

  abbrev whole_or_filled : String → Option String → Value × Bool
  whole_or_filled s (some name) = elim (get name vars) [
    | none ↦ (str s, false)
    | some v ↦ (v, true)
  ]
  whole_or_filled s none =
      if contains "${rule." s
      then (str s, false)
      else (let (t, known) = fill_vars 0 s in (str t, known))

  unfoldable pub effective : Value → Value × Bool
  unfolding whole_var_token contains fill_vars get
  effective (str s) =
      if contains "${" s then whole_or_filled s (whole_var_token s) else (str s, true)
  effective v = (v, true)

  abbrev check_bool : Value → Place → Report
  check_bool (bool b) path = clean
  check_bool (str s) path =
      if is_falsy_text s then add error false_text path else add warning not_bool path
  check_bool v path = add warning not_bool path

  unfoldable pub bool_value : Value → Place → Report
  unfolding effective is_falsy_text
  bool_value raw path = let (v, known) = effective raw in if known then check_bool v path else clean

  abbrev pub check_size : Option (List ℕ) → Place → Report
  check_size none path = add error not_size path
  check_size (some []) path = clean
  check_size (some (c ∷ cs)) path =
      if not (is_size_unit (c ∷ cs))
      then add error not_size path
      else if ends_in_b (c ∷ cs)
      then add warning means_bits path
      else clean

  -- Searching compiles the pattern; `none` is the re.error.
  abbrev pub check_regex : Value → Place → Report
  check_regex v path =
      if is_some (rt.search (to_str rt v) "") then clean else add error invalid_regex path

  abbrev pub check_number : Result (Option Number) → Place → Report
  check_number (err e) path = err e
  check_number (ok none) path = add error not_number path
  check_number (ok (some x)) path = clean

  abbrev pub check_kind : Kind → Value → Place → Report
  check_kind number_kind v path = check_number (to_float rt v) path
  check_kind duration_kind v path = if is_duration v then clean else add error not_duration path
  check_kind size_kind null path = add error not_size path
  check_kind size_kind v path = check_size (size_unit (codes (to_str rt v))) path
  check_kind regex_kind v path = check_regex v path
  check_kind string_kind (str s) path = clean
  check_kind string_kind (list vs) path = clean
  check_kind string_kind v path = add error not_text path
  check_kind list_kind v path = clean
  check_kind any_kind v path = clean

  abbrev check_tokens : Value → Place → Report
  check_tokens (str s) path = if has_runtime_token s then add warning runtime_token path else clean
  check_tokens v path = clean

  -- `value`, with the kind of the operator
  unfoldable pub value : Kind → Value → Place → Report
  unfolding effective has_runtime_token is_duration size_unit is_size_unit ends_in_b ◌<+>◌
  value kind raw path =
      let (v, known) = effective raw in
      if known then check_tokens v path <+> check_kind kind v path else clean
