-- ===== src/Validation/Carried.antt =====
-- What the resolver (src/qbt_rules/resolver.py) must keep of a condition, field by field, for it to stay
-- evaluable.
use qbt_rules.Prelude.{
  String, ◌≡◌, refl, ◌∙◌, Bool, true, false, ◌&&◌, ◌||◌, Option, some, str_eq, if◌then◌else◌, arith,
}
use qbt_rules.Value.{
  Value, null, bool, num, str, list, dict, Items, Fields, end, field, get, has_key,
}
use qbt_rules.Conditions.Evaluate.{has_group}
use qbt_rules.Resolver.{is_ref}
use qbt_rules.Validation.Evaluable.{
  operator_ok, leaf_ok, evaluable, group_evaluable, list_evaluable, items_evaluable, top_evaluable,
  block_evaluable,
}

-- What a value has before the change, it has after it, without references.
pub record Carries (refs : Bool) (v v' : Value) : Type 0 where
  pub condition : evaluable refs v ≡ true → is_ref v ≡ false → evaluable false v' ≡ true
  pub block : block_evaluable refs v ≡ true → block_evaluable false v' ≡ true
  pub top : top_evaluable refs v ≡ true → top_evaluable false v' ≡ true
  pub group : list_evaluable refs v ≡ true → list_evaluable false v' ≡ true
  pub operator : operator_ok (some v) ≡ true → operator_ok (some v') ≡ true

-- The same keys in the same order, each with a value that carries over.
pub data Fieldwise (refs : Bool) : Fields → Fields → Type 0 where
  no_fields : Fieldwise refs end end
  one_field :
      {k : String} {v v' : Value} {fs fs' : Fields}
      → Carries refs v v'
      → Fieldwise refs fs fs'
      → Fieldwise refs (field k v fs) (field k v' fs')

-- An implication on each side of a test.
if_implies :
    (b x y x' y' : Bool)
    → (if b then x else y) ≡ true
    → (x ≡ true → x' ≡ true)
    → (y ≡ true → y' ≡ true)
    → (if b then x' else y') ≡ true
if_implies true x y x' y' h p q = p h
if_implies false x y x' y' h p q = q h

and_implies :
    (x y x' y' : Bool)
    → x && y ≡ true
    → (x ≡ true → x' ≡ true)
    → (y ≡ true → y' ≡ true)
    → x' && y' ≡ true
and_implies true true x' y' h p q = rw (p refl, q refl)
and_implies true false x' y' h p q = ground (arith, h)
and_implies false y x' y' h p q = ground (arith, h)

found_kept :
    (b : Bool) (v v' : Value) (o o' : Option Value)
    → operator_ok (if b then some v else o) ≡ true
    → (operator_ok (some v) ≡ true → operator_ok (some v') ≡ true)
    → (operator_ok o ≡ true → operator_ok o' ≡ true)
    → operator_ok (if b then some v' else o') ≡ true
found_kept true v v' o o' h p q = p h
found_kept false v v' o o' h p q = q h

groups_same : (a b c a' b' c' : Bool) → a' ≡ a → b' ≡ b → c' ≡ c → a' || b' || c' ≡ a || b || c
groups_same a b c a' b' c' p q r = rw (p, q, r)

module _ (refs : Bool) where
  mapping_kept :
      (r r' g g' t t' l l' : Bool)
      → r ≡ false
      → r' ≡ false
      → g' ≡ g
      → (t ≡ true → t' ≡ true)
      → (l ≡ true → l' ≡ true)
      → (if r then refs else if g then t else l) ≡ true
      → (if r' then false else if g' then t' else l') ≡ true
  mapping_kept false false true true t t' l l' e e' f p q h = p h
  mapping_kept false false false false t t' l l' e e' f p q h = q h
  mapping_kept false false true false t t' l l' e e' f p q h = ground (arith, f)
  mapping_kept false false false true t t' l l' e e' f p q h = ground (arith, f)
  mapping_kept true r' g g' t t' l l' e e' f p q h = ground (arith, e)
  mapping_kept false true g g' t t' l l' e e' f p q h = ground (arith, e')

  top_kept :
      (r r' t t' : Bool)
      → r ≡ false
      → r' ≡ false
      → (t ≡ true → t' ≡ true)
      → (if r then refs else t) ≡ true
      → (if r' then false else t') ≡ true
  top_kept r r' t t' e e' p h = mapping_kept r r' true true t t' true true e e' refl p (λ x. x) h

  pub key_kept :
      (name : String) {fs fs' : Fields} → Fieldwise refs fs fs' → has_key name fs' ≡ has_key name fs
  unfolding get
  key_kept name no_fields = refl
  key_kept name (one_field {k} {v} {v'} {fs} {fs'} c cs) = ground (arith, key_kept name cs)

  operator_kept :
      (name : String) {fs fs' : Fields}
      → Fieldwise refs fs fs'
      → operator_ok (get name fs) ≡ true
      → operator_ok (get name fs') ≡ true
  unfolding get
  operator_kept name no_fields h = h
  operator_kept name (one_field {k} {v} {v'} {fs} {fs'} c cs) h =
      found_kept (str_eq k name) v v' (get name fs) (get name fs') h c.operator
        (operator_kept name cs)

  group_kept :
      (name : String) {fs fs' : Fields}
      → Fieldwise refs fs fs'
      → group_evaluable refs name fs ≡ true
      → group_evaluable false name fs' ≡ true
  unfolding evaluable
  group_kept name no_fields h = refl
  group_kept name (one_field {k} {v} {v'} {fs} {fs'} c cs) h =
      if_implies (str_eq k name) (list_evaluable refs v) (group_evaluable refs name fs)
        (list_evaluable false v') (group_evaluable false name fs') h c.group (group_kept name cs)

  groups_kept :
      {fs fs' : Fields}
      → Fieldwise refs fs fs'
      → group_evaluable refs "all" fs
          && group_evaluable refs "any" fs
          && group_evaluable refs "none" fs
        ≡ true
      → group_evaluable false "all" fs'
          && group_evaluable false "any" fs'
          && group_evaluable false "none" fs'
        ≡ true
  groups_kept {fs} {fs'} c h =
      and_implies (group_evaluable refs "all" fs && group_evaluable refs "any" fs)
        (group_evaluable refs "none" fs) _ _ h
        (λ p.
          and_implies (group_evaluable refs "all" fs) (group_evaluable refs "any" fs) _ _ p
            (group_kept "all" c) (group_kept "any" c))
        (group_kept "none" c)

  leaf_kept : {fs fs' : Fields} → Fieldwise refs fs fs' → leaf_ok fs ≡ true → leaf_ok fs' ≡ true
  leaf_kept {fs} {fs'} c h =
      and_implies (has_key "field" fs && operator_ok (get "operator" fs)) (has_key "value" fs) _ _ h
        (λ p.
          and_implies (has_key "field" fs) (operator_ok (get "operator" fs)) _ _ p
            (λ q. key_kept "field" c ∙ q) (operator_kept "operator" c))
        (λ q. key_kept "value" c ∙ q)

  evaluable_kept :
      {fs fs' : Fields}
      → has_key "$ref" fs ≡ false
      → Fieldwise refs fs fs'
      → evaluable refs (dict fs) ≡ true
      → evaluable false (dict fs') ≡ true
  unfolding evaluable
  evaluable_kept {fs} {fs'} e c =
      mapping_kept (has_key "$ref" fs) (has_key "$ref" fs') (has_group fs) (has_group fs') _ _ _ _ e
        (key_kept "$ref" c ∙ e)
        (groups_same (has_key "all" fs) (has_key "any" fs) (has_key "none" fs) (has_key "all" fs')
          (has_key "any" fs') (has_key "none" fs') (key_kept "all" c) (key_kept "any" c)
          (key_kept "none" c))
        (groups_kept c) (leaf_kept c)

  pub mapping-Carries :
      {fs fs' : Fields}
      → has_key "$ref" fs ≡ false
      → Fieldwise refs fs fs'
      → Carries refs (dict fs) (dict fs')
  unfolding evaluable operator_ok
  mapping-Carries {fs} {fs'} e c = record {
    condition = λ h r. evaluable_kept e c h;
    block = evaluable_kept e c;
    top =
        top_kept (has_key "$ref" fs) (has_key "$ref" fs') _ _ e (key_kept "$ref" c ∙ e)
          (groups_kept c);
    group = λ h. ground (arith, h);
    operator = λ h. ground (arith, h);
  }

-- A list carries over when its items do.
pub list-Carries :
    (refs : Bool) (vs vs' : Items)
    → (items_evaluable refs vs ≡ true → items_evaluable false vs' ≡ true)
    → Carries refs (list vs) (list vs')
unfolding evaluable operator_ok
list-Carries refs vs vs' p = record {
  condition = λ h r. ground (arith, h);
  block = p;
  top = p;
  group = p;
  operator = λ h. ground (arith, h);
}

-- A value that is neither a list nor a mapping is no condition: only an operator matters.
abbrev pub is_scalar : Value → Bool
is_scalar (list vs) = false
is_scalar (dict fs) = false
is_scalar v = true

-- A value that is no condition, no block and no group carries over to any value.
nothing-Carries :
    (refs : Bool) (v v' : Value)
    → evaluable refs v ≡ false
    → block_evaluable refs v ≡ false
    → top_evaluable refs v ≡ false
    → list_evaluable refs v ≡ false
    → (operator_ok (some v) ≡ true → operator_ok (some v') ≡ true)
    → Carries refs v v'
nothing-Carries refs v v' c b t g p = record {
  condition = λ h r. ground (arith, c, h);
  block = λ h. ground (arith, b, h);
  top = λ h. ground (arith, t, h);
  group = λ h. ground (arith, g, h);
  operator = p;
}

pub scalar-Carries :
    (refs : Bool) (v v' : Value)
    → is_scalar v ≡ true
    → (operator_ok (some v) ≡ true → operator_ok (some v') ≡ true)
    → Carries refs v v'
unfolding evaluable
scalar-Carries refs null v' e p = nothing-Carries refs null v' refl refl refl refl p
scalar-Carries refs (bool b) v' e p = nothing-Carries refs (bool b) v' refl refl refl refl p
scalar-Carries refs (num n) v' e p = nothing-Carries refs (num n) v' refl refl refl refl p
scalar-Carries refs (str s) v' e p = nothing-Carries refs (str s) v' refl refl refl refl p
scalar-Carries refs (list vs) v' e p = ground (arith, e)
scalar-Carries refs (dict fs) v' e p = ground (arith, e)
