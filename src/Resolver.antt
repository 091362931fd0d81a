-- ===== src/Resolver.antt =====
-- src/qbt_rules/resolver.py, RuleResolver: the named blocks and variables of a rules file, and the first
-- phase of `resolve_rule`, which replaces each `$ref` by its block. The places that a warning names,
-- `_ref_siblings` and the texts of errors are left out.
pub mod Tokens
pub mod Rule
pub mod Termination
pub mod Total
pub mod Plain
pub mod Untouched
mod Tests
use qbt_rules.Prelude.{
  ℕ, zero, suc, String, Bool, true, false, ◌&&◌, ◌||◌, Option, none, some, List, [], ◌∷◌, ◌++◌,
  length, not, is_some, str_eq, str_in, str_append, if◌then◌else◌,
}
use qbt_rules.Value.{
  Value, null, bool, num, str, list, dict, Items, nil, cons, Fields, end, field, get, update,
  has_key, keys, truthy,
}
use qbt_rules.Utils.{split_dot}

-- src/qbt_rules/errors.py, with the reference, variable or field that is at fault
pub data ResolverError : Type 0 where
  invalid_ref : Value → ResolverError
  unknown_ref ref_type_mismatch circular_ref : String → ResolverError
  invalid_variable unknown_variable : String → ResolverError
  invalid_rule_field unknown_rule_field : String → ResolverError

-- `out_of_fuel` is the model's own: the source has no bound. Resolver/Termination shows that it does
-- not occur.
pub data Outcome {ℓ} (A : Type ℓ) : Type ℓ where
  done : A → Outcome A
  raised : ResolverError → Outcome A
  out_of_fuel : Outcome A

infixl 5 ◌>>=◌
unfoldable pub ◌>>=◌ {ℓ κ} : {A : Type ℓ} {B : Type κ} → Outcome A → (A → Outcome B) → Outcome B
done a >>= f = f a
raised e >>= f = raised e
out_of_fuel >>= f = out_of_fuel

pub record RuleResolver : Type 0 where
  pub vars : Fields
  pub conditions : Fields
  pub actions : Fields
  pub meta : Fields

-- The loader has checked that these groups are mappings, where they are there.
abbrev pub mapping : Option Value → Fields
mapping (some (dict fs)) = fs
mapping _ = end

-- `if instance_id and instances`
unfoldable pub instance_vars : Option String → Fields → Fields
unfolding get
instance_vars none instances = end
instance_vars (some instance_id) instances =
    if str_eq instance_id ""
    then end
    else mapping (get "vars" (mapping (get "refs" (mapping (get instance_id instances)))))

unfoldable pub new_resolver : Fields → Option String → Fields → RuleResolver
unfolding instance_vars update
new_resolver refs instance_id instances = record {
  vars = update (mapping (get "vars" refs)) (instance_vars instance_id instances);
  conditions = mapping (get "conditions" refs);
  actions = mapping (get "actions" refs);
  meta = mapping (get "meta" refs);
}

unfoldable pub get_block_meta : RuleResolver → String → String → Fields
get_block_meta r kind name = mapping (get name (mapping (get kind r.meta)))

-- What a table has under a key, or an error.
abbrev pub found : ResolverError → Option Value → Outcome Value
found e none = raised e
found e (some v) = done v

abbrev pub lookup_in : RuleResolver → String → Option (String × String) → Outcome Value
lookup_in r path none = raised (invalid_ref (str path))
lookup_in r path (some (group, name)) =
    if str_eq group "conditions"
    then found (unknown_ref path) (get name r.conditions)
    else if str_eq group "actions"
    then found (unknown_ref path) (get name r.actions)
    else raised (invalid_ref (str path))

unfoldable pub lookup_ref : RuleResolver → String → Outcome Value
lookup_ref r path = lookup_in r path (split_dot path)

-- `isinstance(item, dict) and "$ref" in item`
abbrev pub is_ref : Value → Bool
is_ref (dict fs) = has_key "$ref" fs
is_ref _ = false

abbrev pub append : Items → Items → Items
append nil ws = ws
append (cons v vs) ws = cons v (append vs ws)

-- `if "$ref" in node`
abbrev pub if_ref : Option Value → (Value → Outcome Value) → Outcome Value → Outcome Value
if_ref (some ref) follow rest = follow ref
if_ref none follow rest = rest

-- A reference that expands to a list is spliced in, any other item is appended.
abbrev pub splice : Bool → Value → Items → Items
splice true (list vs) rest = append vs rest
splice _ v rest = cons v rest

-- `None` puts no restriction.
abbrev pub allows : Option (List String) → String → Bool
allows none group = true
allows (some groups) group = str_in group groups

module _ (r : RuleResolver) (allowed : Option (List String)) where
  -- The checks on a reference, its block, and the expansion of the block, which is `jump`.
  abbrev pub follow :
      (List String → Value → Outcome Value)
      → List String
      → String
      → Option (String × String)
      → Outcome Value
  follow jump stack path none = raised (invalid_ref (str path))
  follow jump stack path (some (group, name)) =
      if not (str_eq group "conditions" || str_eq group "actions")
      then raised (invalid_ref (str path))
      else if not (allows allowed group)
      then raised (ref_type_mismatch path)
      else if str_in path stack
      then raised (circular_ref path)
      else lookup_ref r path >>= jump (path ∷ stack)

  unfoldable pub follow_ref :
      (List String → Value → Outcome Value) → List String → Value → Outcome Value
  follow_ref jump stack (str path) = follow jump stack path (split_dot path)
  follow_ref jump stack ref = raised (invalid_ref ref)

  -- `_expand_refs` on one structure; the stack is a set, and grows only at a reference.
  unfoldable mutual
    pub expand_value : (List String → Value → Outcome Value) → List String → Value → Outcome Value
    expand_value jump stack (dict fs) =
        if_ref (get "$ref" fs) (follow_ref jump stack)
          (expand_fields jump stack fs >>= (λ fs'. done (dict fs')))
    expand_value jump stack (list vs) = expand_items jump stack vs >>= (λ vs'. done (list vs'))
    expand_value jump stack null = done null
    expand_value jump stack (bool b) = done (bool b)
    expand_value jump stack (num n) = done (num n)
    expand_value jump stack (str s) = done (str s)

    pub expand_fields :
        (List String → Value → Outcome Value) → List String → Fields → Outcome Fields
    expand_fields jump stack end = done end
    expand_fields jump stack (field k v fs) =
        expand_value jump stack v
        >>= (λ v'. expand_fields jump stack fs >>= (λ fs'. done (field k v' fs')))

    pub expand_items : (List String → Value → Outcome Value) → List String → Items → Outcome Items
    expand_items jump stack nil = done nil
    expand_items jump stack (cons v vs) =
        expand_value jump stack v
        >>= (λ v'. expand_items jump stack vs >>= (λ vs'. done (splice (is_ref v) v' vs')))

  -- The fuel counts the references that may be followed one inside the other.
  unfoldable pub expand_refs : ℕ → List String → Value → Outcome Value
  unfolding expand_value
  expand_refs zero stack v = expand_value (λ stack' block. out_of_fuel) stack v
  expand_refs (suc fuel) stack v = expand_value (expand_refs fuel) stack v

-- The references that have a block.
abbrev pub prefixed : String → List String → List String
prefixed group [] = []
prefixed group (name ∷ names) = str_append group (str_append "." name) ∷ prefixed group names

unfoldable pub ref_paths : RuleResolver → List String
ref_paths r = prefixed "conditions" (keys r.conditions) ++ prefixed "actions" (keys r.actions)
