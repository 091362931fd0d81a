-- ===== src/Resolver/Untouched.antt =====
-- Rules that use neither references nor tokens (src/qbt_rules/resolver.py).
use text.Mathlib.TextLemmas.{nil-append, cons-append}
use qbt_rules.Prelude.{
  zero, String, ◌≡◌, refl, sym, ap, subst, ◌∙◌, Bool, true, false, ◌&&◌, ◌||◌, Option, none, some,
  [], ◌∷◌, str_eq, if◌then◌else◌, arith, Bool-cases, inl, inr, ◌==◌, eq_iff,
}
use qbt_rules.Value.{
  Value, null, bool, num, str, list, dict, Items, nil, cons, Fields, end, field, get, put,
}
use qbt_rules.Utils.{starts_with}
use qbt_rules.Conditions.{Runtime}
use qbt_rules.Resolver.{done, ◌>>=◌, RuleResolver}
use qbt_rules.Resolver.Tokens.{
  drop_prefix, match_token, count_opening, is_whole_token, interpolate, substitute_text,
  substitute_tokens, substitute_fields, substitute_items,
}
use qbt_rules.Resolver.Rule.{expand_key, expand_found, expand_others, expand_rule, resolve_rule}
use qbt_rules.Resolver.Plain.{is_plain, plain_fields, expand-kept}

-- No text in the value contains "${".
unfoldable mutual
  pub has_no_token : Value → Bool
  has_no_token (str s) = count_opening s == 0
  has_no_token (list vs) = items_have_none vs
  has_no_token (dict fs) = fields_have_none fs
  has_no_token null = true
  has_no_token (bool b) = true
  has_no_token (num n) = true

  pub fields_have_none : Fields → Bool
  fields_have_none end = true
  fields_have_none (field k v fs) = has_no_token v && fields_have_none fs

  pub items_have_none : Items → Bool
  items_have_none nil = true
  items_have_none (cons v vs) = has_no_token v && items_have_none vs

-- A token starts with "${".
match_token-none : (s : String) → starts_with s "${" ≡ false → match_token s ≡ none
unfolding match_token drop_prefix starts_with
match_token-none String.[] h = refl
match_token-none (String.◌∷◌ c String.[]) h = ground arith
match_token-none (String.◌∷◌ c (String.◌∷◌ d s)) h = ground (arith, h)

module _ (rt : Runtime) (r : RuleResolver) (rule : Fields) where
  interpolate-kept :
      (s : String) → (count_opening s == 0) ≡ true → interpolate rt r rule zero s ≡ done s
  unfolding interpolate count_opening ◌>>=◌
  interpolate-kept String.[] h = refl
  interpolate-kept (String.◌∷◌ c s) h = elim (Bool-cases (starts_with (String.◌∷◌ c s) "${")) [
    | inl e ↦ ground (arith, e, h)
    | inr e ↦ rw (match_token-none (String.◌∷◌ c s) e) (
        rw (interpolate-kept s (ground (arith, e, h)))
          (ap (λ t. done t) (cons-append c "" s ∙ ap (λ t. String.◌∷◌ c t) (nil-append s))))
  ]

  substitute_text-kept :
      (s : String) → (count_opening s == 0) ≡ true → substitute_text rt r rule s ≡ done (str s)
  unfolding substitute_text is_whole_token ◌>>=◌
  substitute_text-kept s h = elim (Bool-cases (is_whole_token s)) [
    | inl e ↦ ground (arith, e, h)
    | inr e ↦ rw e (rw (interpolate-kept s h))
  ]

  mutual
    unfolding substitute_tokens has_no_token ◌>>=◌

    tokens_kept : (v : Value) → has_no_token v ≡ true → substitute_tokens rt r rule v ≡ done v
    tokens_kept null p = refl
    tokens_kept (bool b) p = refl
    tokens_kept (num n) p = refl
    tokens_kept (str s) p = substitute_text-kept s p
    tokens_kept (list vs) p = rw (token_items_kept vs p)
    tokens_kept (dict fs) p = rw (token_fields_kept fs p)

    token_fields_kept :
        (fs : Fields) → fields_have_none fs ≡ true → substitute_fields rt r rule fs ≡ done fs
    token_fields_kept end p = refl
    token_fields_kept (field k v fs) p =
        rw (tokens_kept v (ground (arith, p))) (rw (token_fields_kept fs (ground (arith, p))))

    token_items_kept :
        (vs : Items) → items_have_none vs ≡ true → substitute_items rt r rule vs ≡ done vs
    token_items_kept nil p = refl
    token_items_kept (cons v vs) p =
        rw (tokens_kept v (ground (arith, p))) (rw (token_items_kept vs (ground (arith, p))))

put-get : (k : String) (v : Value) (fs : Fields) → get k fs ≡ some v → put k v fs ≡ fs
unfolding put get
put-get k v end e = ground (arith, e)
put-get k v (field j w fs) e = elim (Bool-cases (str_eq j k)) [
  | inl same ↦
      let q : w ≡ v = ground (arith, e, same) in
      rw (same, q) (ap (λ x. field x v fs) (sym ((eq_iff j k).0 same)))
  | inr other ↦ rw (other, put-get k v fs (ground (arith, e, other)))
]

plain_get :
    (k : String) (fs : Fields) (v : Value)
    → plain_fields fs ≡ true
    → get k fs ≡ some v
    → is_plain v ≡ true
unfolding is_plain get
plain_get k end v p e = ground (arith, e)
plain_get k (field j w fs) v p e = elim (Bool-cases (str_eq j k)) [
  | inl same ↦
      let q : w ≡ v = ground (arith, e, same) in
      subst (λ x. is_plain x ≡ true) q (ground (arith, p))
  | inr other ↦ plain_get k fs v (ground (arith, p)) (ground (arith, e, other))
]

module _ (r : RuleResolver) where
  expand_found-kept :
      (key : String) (fs : Fields) (o : Option Value)
      → plain_fields fs ≡ true
      → get key fs ≡ o
      → expand_found r key o fs ≡ done fs
  unfolding ◌>>=◌
  expand_found-kept key fs none p e = refl
  expand_found-kept key fs (some v) p e =
      rw (expand-kept r (some (key ∷ [])) v (plain_get key fs v p e))
        (ap (λ x. done x) (put-get key v fs e))

  expand_others-kept : (fs : Fields) → plain_fields fs ≡ true → expand_others r fs ≡ done fs
  unfolding expand_others is_plain ◌>>=◌
  expand_others-kept end p = refl
  expand_others-kept (field k v fs) p =
      let same = expand-kept r none v (ground (arith, p)) in
      rw (same, expand_others-kept fs (ground (arith, p)))
        (chosen (str_eq k "conditions" || str_eq k "actions" || str_eq k "id"))
    where
      chosen :
          (b : Bool)
          → ((if b then done v else done v) >>= (λ v'. done (field k v' fs))) ≡ done (field k v fs)
      chosen true = refl
      chosen false = refl

  -- A rule with no $ref and no text that contains "${" resolves to itself, whatever the blocks
  -- and variables are.
  pub resolve_rule-plain :
      (rt : Runtime) (rule : Fields)
      → plain_fields rule ≡ true
      → fields_have_none rule ≡ true
      → resolve_rule r rt rule ≡ done rule
  unfolding resolve_rule expand_rule expand_key ◌>>=◌
  resolve_rule-plain rt rule p q =
      rw (expand_found-kept "conditions" rule (get "conditions" rule) p refl) (
        rw (expand_found-kept "actions" rule (get "actions" rule) p refl)
          (rw (expand_others-kept rule p) (token_fields_kept rt r rule rule q)))
