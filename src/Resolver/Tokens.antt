-- ===== src/Resolver/Tokens.antt =====
-- `_substitute_tokens`, `_resolve_token`, `_resolve_var` and `_resolve_rule_field` of
-- src/qbt_rules/resolver.py: ${vars.*} and ${rule.*} in texts.
use Prim.Native.Char.{Char, code}
use qbt_rules.Prelude.{
  ℕ, zero, suc, ◌+◌, String, Bool, false, ◌&&◌, ◌||◌, Option, none, some, List, [], ◌∷◌, length,
  not, ◌==◌, str_eq, str_in, str_append, if◌then◌else◌,
}
use qbt_rules.Value.{
  Value, null, bool, num, str, list, dict, Items, nil, cons, Fields, end, field, get,
}
use qbt_rules.Utils.{codes, is_letter, is_digit, split, split_dot, starts_with}
use qbt_rules.Conditions.{Runtime}
use qbt_rules.Conditions.Operators.{to_str}
use qbt_rules.Resolver.{
  invalid_variable, unknown_variable, invalid_rule_field, unknown_rule_field, Outcome, done, raised,
  ◌>>=◌, RuleResolver, found,
}

-- `\w`
abbrev pub is_word : ℕ → Bool
is_word c = is_letter c || is_digit c || c == b'_'

abbrev pub prepend : Char → Option String → Option String
prepend c none = none
prepend c (some s) = some (String.◌∷◌ c s)

-- `\w*(?:\.\w+)*\}`, with a letter in each segment: what stands before the brace
unfoldable pub segments : Bool → String → Option String
segments started String.[] = none
segments started (String.◌∷◌ c s) =
    let rest = segments (is_word (code c)) s in
    if is_word (code c)
    then prepend c rest
    else if not started
    then none
    else if code c == b'.'
    then prepend c rest
    else if code c == b'}'
    then some ""
    else none

abbrev pub after_dot : String → Option String
after_dot String.[] = none
after_dot (String.◌∷◌ c s) = if code c == b'.' then prepend c (segments false s) else none

unfoldable pub drop_prefix : String → String → Option String
drop_prefix String.[] s = some s
drop_prefix (String.◌∷◌ c p) String.[] = none
drop_prefix (String.◌∷◌ c p) (String.◌∷◌ d s) = if code c == code d then drop_prefix p s else none

abbrev pub token_after : String → Option String → Option String
token_after namespace none = none
token_after namespace (some s) = elim (after_dot s) [
  | none ↦ none
  | some path ↦ some (str_append namespace path)
]

-- TOKEN_PATTERN at the start of a text: the path between the braces.
unfoldable pub match_token : String → Option String
unfolding segments drop_prefix
match_token s = elim (token_after "vars" (drop_prefix "${vars" s)) [
  | some path ↦ some path
  | none ↦ token_after "rule" (drop_prefix "${rule" s)
]

abbrev pub runtime_token_namespaces : List String
runtime_token_namespaces =
    "info" ∷ "trackers" ∷ "files" ∷ "peers" ∷ "properties" ∷ "webseeds" ∷ "transfer" ∷ "app"
    ∷ "stats" ∷ "tracker" ∷ []

-- `s.count("${")`: the pattern does not overlap itself.
unfoldable pub count_opening : String → ℕ
count_opening String.[] = 0
count_opening (String.◌∷◌ c s) =
    let rest = count_opening s in if starts_with (String.◌∷◌ c s) "${" then suc rest else rest

unfoldable pub ends_with_brace : String → Bool
ends_with_brace String.[] = false
ends_with_brace (String.◌∷◌ c s) =
    let rest = ends_with_brace s in if str_eq s "" then code c == b'}' else rest

-- `s[:-1]`
unfoldable pub drop_last : String → String
drop_last String.[] = ""
drop_last (String.◌∷◌ c s) = let rest = drop_last s in if str_eq s "" then "" else String.◌∷◌ c rest

-- `s[2:]`
abbrev pub drop_two : String → String
drop_two (String.◌∷◌ c (String.◌∷◌ d s)) = s
drop_two _ = ""

unfoldable pub is_whole_token : String → Bool
unfolding count_opening ends_with_brace starts_with
is_whole_token s = starts_with s "${" && ends_with_brace s && count_opening s == 1

abbrev pub first_part : String → String
first_part path = elim (split_dot path) [ none ↦ path | some (first, rest) ↦ first ]

abbrev pub var_of : Fields → String → Option (String × String) → Outcome Value
var_of vars path none = raised (invalid_variable path)
var_of vars path (some (group, name)) =
    if str_eq group "vars"
    then found (unknown_variable name) (get name vars)
    else raised (invalid_variable path)

unfoldable pub resolve_var : RuleResolver → String → Outcome Value
resolve_var r path = var_of r.vars path (split_dot path)

-- One round of the loop over the segments of the path.
abbrev pub segment_in : String → String → Value → Outcome Value
segment_in path segment (dict fs) = found (unknown_rule_field path) (get segment fs)
segment_in path segment v = raised (unknown_rule_field path)

unfoldable pub walk_segments : String → List String → Value → Outcome Value
walk_segments path [] v = done v
walk_segments path (segment ∷ segs) v = segment_in path segment v >>= walk_segments path segs

abbrev pub field_of : String → List String → Fields → Outcome Value
field_of path (first ∷ second ∷ segs) rule =
    if str_eq first "rule"
    then walk_segments path (second ∷ segs) (dict rule)
    else raised (invalid_rule_field path)
field_of path _ rule = raised (invalid_rule_field path)

unfoldable pub resolve_rule_field : String → Fields → Outcome Value
unfolding walk_segments split
resolve_rule_field path rule = field_of path (split b'.' path) rule

unfoldable pub resolve_token : RuleResolver → String → Fields → Outcome Value
unfolding resolve_rule_field resolve_var starts_with
resolve_token r path rule =
    if str_eq path "rule" || starts_with path "rule."
    then resolve_rule_field path rule
    else resolve_var r path

-- How much of the text a token takes after its first character.
abbrev pub token_rest : Option String → ℕ
token_rest none = 0
token_rest (some path) = length (codes path) + 2

module _ (rt : Runtime) (r : RuleResolver) (rule : Fields) where
  abbrev pub emitted : Option String → Char → Outcome String
  emitted none c = done (String.◌∷◌ c "")
  emitted (some path) c = resolve_token r path rule >>= (λ v. done (to_str rt v))

  -- `TOKEN_PATTERN.sub(replace_token, node)`, from left to right
  unfoldable pub interpolate : ℕ → String → Outcome String
  unfolding match_token resolve_token
  interpolate skip String.[] = done ""
  interpolate (suc skip) (String.◌∷◌ c s) = interpolate skip s
  interpolate zero (String.◌∷◌ c s) = emitted (match_token (String.◌∷◌ c s)) c >>= (λ front.
      interpolate (token_rest (match_token (String.◌∷◌ c s))) s
      >>= (λ rest. done (str_append front rest)))

  unfoldable pub substitute_text : String → Outcome Value
  unfolding interpolate is_whole_token drop_last
  substitute_text s =
      if is_whole_token s
      then (if str_in (first_part (drop_last (drop_two s))) runtime_token_namespaces
          then done (str s)
          else resolve_token r (drop_last (drop_two s)) rule)
      else interpolate zero s >>= (λ t. done (str t))

  unfoldable mutual
    pub substitute_tokens : Value → Outcome Value
    substitute_tokens null = done null
    substitute_tokens (bool b) = done (bool b)
    substitute_tokens (num n) = done (num n)
    substitute_tokens (str s) = substitute_text s
    substitute_tokens (list vs) = substitute_items vs >>= (λ vs'. done (list vs'))
    substitute_tokens (dict fs) = substitute_fields fs >>= (λ fs'. done (dict fs'))

    pub substitute_fields : Fields → Outcome Fields
    substitute_fields end = done end
    substitute_fields (field k v fs) =
        substitute_tokens v >>= (λ v'. substitute_fields fs >>= (λ fs'. done (field k v' fs')))

    pub substitute_items : Items → Outcome Items
    substitute_items nil = done nil
    substitute_items (cons v vs) =
        substitute_tokens v >>= (λ v'. substitute_items vs >>= (λ vs'. done (cons v' vs')))
