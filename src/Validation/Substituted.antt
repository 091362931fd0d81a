-- ===== src/Validation/Substituted.antt =====
-- Filling in tokens (src/qbt_rules/resolver.py: `_substitute_tokens`) keeps conditions that can be
-- evaluated so.
use qbt_rules.Prelude.{String, ◌≡◌, refl, true, false, some, Bool-cases, inl, inr, arith}
use qbt_rules.Value.{
  Value, null, bool, num, str, list, dict, Items, nil, cons, Fields, end, field, has_key,
}
use qbt_rules.Utils.{starts_with, split_dot}
use qbt_rules.Conditions.{Runtime}
use qbt_rules.Resolver.{done, ◌>>=◌, RuleResolver, is_ref}
use qbt_rules.Resolver.Plain.{IfDone, IfDone-bind, IfDone-weaken, anything}
use qbt_rules.Resolver.Tokens.{
  substitute_text, substitute_tokens, substitute_fields, substitute_items, interpolate, match_token,
  drop_prefix, is_whole_token, count_opening, ends_with_brace,
}
use qbt_rules.Schema.{operators}
use qbt_rules.Validation.Conditions.{kind_of}
use qbt_rules.Validation.Evaluable.{
  operator_ok, evaluable, items_evaluable, both_true, left_true, right_true,
}
use qbt_rules.Validation.Operators.{AllKeys, known_key}
use qbt_rules.Validation.Carried.{
  Carries, Fieldwise, no_fields, one_field, mapping-Carries, list-Carries, scalar-Carries,
}

module _ (rt : Runtime) (r : RuleResolver) (rule : Fields) where
  abbrev IsKept : String → Type 0
  IsKept s = substitute_text rt r rule s ≡ done (str s)

  operators-IsKept : AllKeys IsKept operators
  unfolding substitute_text interpolate match_token drop_prefix is_whole_token count_opening
      ends_with_brace ◌>>=◌ starts_with qbt_rules.Utils.is_prefix
  operators-IsKept = (
    refl,
    (
      refl,
      (
        refl,
        (
          refl,
          (
            refl,
            (refl, (refl, (refl, (refl, (refl, (refl, (refl, (refl, (refl, (refl, tt)))))))))),
          ),
        ),
      ),
    ),
  )

  kept : (s : String) → operator_ok (some (str s)) ≡ true → IsKept s
  unfolding operator_ok kind_of
  kept s h = known_key IsKept s operators operators-IsKept h

  text-Carries : (s : String) → IfDone (Carries false (str s)) (substitute_text rt r rule s)
  text-Carries s = elim (Bool-cases (operator_ok (some (str s)))) [
    | inl h ↦ rw (kept s h) (scalar-Carries false (str s) (str s) refl (λ e. e))
    | inr h ↦
        IfDone-weaken (λ v. Unit {0}) (Carries false (str s)) (substitute_text rt r rule s)
          (anything (substitute_text rt r rule s))
          (λ v' u. scalar-Carries false (str s) v' refl (λ e. ground (arith, e, h)))
  ]

  -- A mapping with a reference is no condition here.
  ref-Carries : (fs : Fields) (v' : Value) → has_key "$ref" fs ≡ true → Carries false (dict fs) v'
  unfolding evaluable operator_ok
  ref-Carries fs v' e = record {
    condition = λ h q. ground (arith, h, e);
    block = λ h. ground (arith, h, e);
    top = λ h. ground (arith, h, e);
    group = λ h. ground (arith, h);
    operator = λ h. ground (arith, h);
  }

  dict-Carries : (fs fs' : Fields) → Fieldwise false fs fs' → Carries false (dict fs) (dict fs')
  dict-Carries fs fs' c = elim (Bool-cases (has_key "$ref" fs)) [
    | inl e ↦ ref-Carries fs (dict fs') e
    | inr e ↦ mapping-Carries false e c
  ]

  not_ref : (v : Value) → evaluable false v ≡ true → is_ref v ≡ false
  unfolding evaluable
  not_ref (dict fs) h = ground (arith, h)
  not_ref null h = refl
  not_ref (bool b) h = refl
  not_ref (num n) h = refl
  not_ref (str s) h = refl
  not_ref (list vs) h = refl

  mutual
    unfolding substitute_tokens evaluable

    tokens_carry : (v : Value) → IfDone (Carries false v) (substitute_tokens rt r rule v)
    tokens_carry null = scalar-Carries false null null refl (λ h. h)
    tokens_carry (bool b) = scalar-Carries false (bool b) (bool b) refl (λ h. h)
    tokens_carry (num n) = scalar-Carries false (num n) (num n) refl (λ h. h)
    tokens_carry (str s) = text-Carries s
    tokens_carry (list vs) =
        IfDone-bind (λ vs'. items_evaluable false vs ≡ true → items_evaluable false vs' ≡ true)
          (Carries false (list vs)) (substitute_items rt r rule vs) (λ vs'. done (list vs'))
          (token_items_carry vs) (λ vs' p. list-Carries false vs vs' p)
    tokens_carry (dict fs) =
        IfDone-bind (Fieldwise false fs) (Carries false (dict fs)) (substitute_fields rt r rule fs)
          (λ fs'. done (dict fs')) (token_fields_carry fs) (λ fs' c. dict-Carries fs fs' c)

    pub token_fields_carry :
        (fs : Fields) → IfDone (Fieldwise false fs) (substitute_fields rt r rule fs)
    token_fields_carry end = no_fields
    token_fields_carry (field k v fs) =
        IfDone-bind (Carries false v) (Fieldwise false (field k v fs))
          (substitute_tokens rt r rule v) _ (tokens_carry v)
          (λ v' c.
            IfDone-bind (Fieldwise false fs) (Fieldwise false (field k v fs))
              (substitute_fields rt r rule fs) (λ fs'. done (field k v' fs'))
              (token_fields_carry fs) (λ fs' cs. one_field c cs))

    token_items_carry :
        (vs : Items)
        → IfDone
            (λ vs'. items_evaluable false vs ≡ true → items_evaluable false vs' ≡ true)
            (substitute_items rt r rule vs)
    token_items_carry nil = λ h. h
    token_items_carry (cons v vs) =
        IfDone-bind (Carries false v)
          (λ ws. items_evaluable false (cons v vs) ≡ true → items_evaluable false ws ≡ true)
          (substitute_tokens rt r rule v) _ (tokens_carry v)
          (λ v' c.
            IfDone-bind (λ vs'. items_evaluable false vs ≡ true → items_evaluable false vs' ≡ true)
              (λ ws. items_evaluable false (cons v vs) ≡ true → items_evaluable false ws ≡ true)
              (substitute_items rt r rule vs) (λ vs'. done (cons v' vs')) (token_items_carry vs)
              (λ vs' p h.
                both_true (evaluable false v') (items_evaluable false vs')
                  (c.condition (left_true (evaluable false v) (items_evaluable false vs) h)
                    (not_ref v (left_true (evaluable false v) (items_evaluable false vs) h)))
                  (p (right_true (evaluable false v) (items_evaluable false vs) h))))
