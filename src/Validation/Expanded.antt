-- ===== src/Validation/Expanded.antt =====
-- Expanding the references of accepted conditions (src/qbt_rules/resolver.py: `_expand_refs`) gives
-- conditions without references that can be evaluated.
use qbt_rules.Prelude.{
  ℕ, zero, suc, String, ◌≡◌, refl, Bool, true, false, ◌&&◌, ◌||◌, Option, none, some, List, [], ◌∷◌,
  not, str_eq, str_in, Bool-cases, inl, inr, if◌then◌else◌, arith,
}
use qbt_rules.Value.{
  Value, null, bool, num, str, list, dict, Items, nil, cons, Fields, end, field, get, has_key,
}
use qbt_rules.Utils.{split_dot}
use qbt_rules.Resolver.{
  ResolverError, unknown_ref, invalid_ref, ref_type_mismatch, circular_ref, Outcome, done, raised,
  out_of_fuel, ◌>>=◌, RuleResolver, found, lookup_in, lookup_ref, is_ref, if_ref, append, splice,
  follow, follow_ref, expand_value, expand_fields, expand_items, expand_refs,
}
use qbt_rules.Resolver.Plain.{IfDone, IfDone-bind, IfDone-if, IfDone-weaken}
use qbt_rules.Validation.Evaluable.{
  operator_ok, evaluable, group_evaluable, items_evaluable, top_evaluable, block_evaluable,
  blocks_evaluable, both_true, left_true, right_true,
}
use qbt_rules.Validation.Carried.{
  Carries, Fieldwise, no_fields, one_field, mapping-Carries, list-Carries, scalar-Carries,
}

abbrev IsBlock : Bool → Value → Type 0
IsBlock refs v = block_evaluable refs v ≡ true

found-IsBlock :
    (e : ResolverError) (name : String) (fs : Fields)
    → blocks_evaluable fs ≡ true
    → IfDone (IsBlock true) (found e (get name fs))
unfolding get
found-IsBlock e name end h = tt
found-IsBlock e name (field k v fs) h = elim (Bool-cases (str_eq k name)) [
  | inl p ↦ rw (p, left_true (block_evaluable true v) (blocks_evaluable fs) h)
  | inr p ↦
      rw (p) (found-IsBlock e name fs (right_true (block_evaluable true v) (blocks_evaluable fs) h))
]

items_append :
    (vs ws : Items)
    → items_evaluable false vs ≡ true
    → items_evaluable false ws ≡ true
    → items_evaluable false (append vs ws) ≡ true
unfolding evaluable
items_append nil ws p q = q
items_append (cons v vs) ws p q =
    both_true (evaluable false v) (items_evaluable false (append vs ws))
      (left_true (evaluable false v) (items_evaluable false vs) p)
      (items_append vs ws (right_true (evaluable false v) (items_evaluable false vs) p) q)

item-IsBlock : (refs : Bool) (v : Value) → evaluable refs v ≡ true → IsBlock refs v
unfolding evaluable
item-IsBlock refs (dict fs) h = h
item-IsBlock refs (list vs) h = ground (arith, h)
item-IsBlock refs null h = h
item-IsBlock refs (bool b) h = h
item-IsBlock refs (num n) h = h
item-IsBlock refs (str s) h = h

splice-evaluable :
    (b : Bool) (v : Value) (rest : Items)
    → (b ≡ true → IsBlock false v)
    → (b ≡ false → evaluable false v ≡ true)
    → items_evaluable false rest ≡ true
    → items_evaluable false (splice b v rest) ≡ true
unfolding evaluable
splice-evaluable true (list vs) rest p q r = items_append vs rest (p refl) r
splice-evaluable true (dict fs) rest p q r =
    both_true (evaluable false (dict fs)) (items_evaluable false rest) (p refl) r
splice-evaluable true null rest p q r = both_true false (items_evaluable false rest) (p refl) r
splice-evaluable true (bool b) rest p q r = both_true false (items_evaluable false rest) (p refl) r
splice-evaluable true (num n) rest p q r = both_true false (items_evaluable false rest) (p refl) r
splice-evaluable true (str s) rest p q r = both_true false (items_evaluable false rest) (p refl) r
splice-evaluable false v rest p q r =
    both_true (evaluable false v) (items_evaluable false rest) (q refl) r

no_group :
    (name : String) (fs : Fields) → has_key name fs ≡ false → group_evaluable false name fs ≡ true
unfolding evaluable get
no_group name end h = refl
no_group name (field k v fs) h = elim (Bool-cases (str_eq k name)) [
  | inl p ↦ ground (arith, p, h)
  | inr p ↦ rw (p, no_group name fs (rw p at h))
]

-- A mapping without groups is no mapping with a wrong group.
if_top :
    (ref has_a has_b has_c a b c l : Bool)
    → (has_a ≡ false → a ≡ true)
    → (has_b ≡ false → b ≡ true)
    → (has_c ≡ false → c ≡ true)
    → (if ref then false else if has_a || has_b || has_c then a && b && c else l) ≡ true
    → (if ref then false else a && b && c) ≡ true
if_top true has_a has_b has_c a b c l p q r h = h
if_top false true has_b has_c a b c l p q r h = h
if_top false false true has_c a b c l p q r h = h
if_top false false false true a b c l p q r h = h
if_top false false false false a b c l p q r h =
    both_true (a && b) c (both_true a b (p refl) (q refl)) (r refl)

block_top : (v : Value) → IsBlock false v → top_evaluable false v ≡ true
unfolding evaluable
block_top (list vs) h = h
block_top (dict fs) h =
    if_top (has_key "$ref" fs) (has_key "all" fs) (has_key "any" fs) (has_key "none" fs) _ _ _ _
      (no_group "all" fs) (no_group "any" fs) (no_group "none" fs) h
block_top null h = h
block_top (bool b) h = h
block_top (num n) h = h
block_top (str s) h = h

ref-Carries :
    (fs : Fields) (ref v' : Value)
    → get "$ref" fs ≡ some ref
    → IsBlock false v'
    → Carries true (dict fs) v'
unfolding evaluable operator_ok
ref-Carries fs ref v' e h = record {
  condition = λ p q. ground (arith, q, e);
  block = λ p. h;
  top = λ p. block_top v' h;
  group = λ p. ground (arith, p);
  operator = λ p. ground (arith, p);
}

abbrev pub only_conditions : Option (List String)
only_conditions = some ("conditions" ∷ [])

module _ (r : RuleResolver) (jump : List String → Value → Outcome Value) (stack : List String)
    (blocks : blocks_evaluable r.conditions ≡ true)
    (expands : (stack' : List String) (v : Value)
      → IsBlock true v
      → IfDone (IsBlock false) (jump stack' v)) where
  lookup-IsBlock :
      (path group name : String)
      → str_eq group "conditions" ≡ true
      → IfDone (IsBlock true) (lookup_in r path (some (group, name)))
  lookup-IsBlock path group name e =
      rw (e) (found-IsBlock (unknown_ref path) name r.conditions blocks)

  found_at :
      (path : String) (parts : Option (String × String))
      → split_dot path ≡ parts
      → IfDone (IsBlock true) (lookup_in r path parts)
      → IfDone (IsBlock true) (lookup_ref r path)
  unfolding lookup_ref
  found_at path parts e h = rw (e) h

  follow-IsBlock :
      (path : String) (parts : Option (String × String))
      → split_dot path ≡ parts
      → IfDone (IsBlock false) (follow r only_conditions jump stack path parts)
  unfolding lookup_ref
  follow-IsBlock path none e = tt
  follow-IsBlock path (some (group, name)) e = elim (Bool-cases (str_eq group "conditions")) [
    | inl c ↦ rw (c) (
        IfDone-if (IsBlock false) (str_in path stack) (raised (circular_ref path)) _ tt (
          IfDone-bind (IsBlock true) (IsBlock false) (lookup_ref r path) (jump (path ∷ stack))
            (found_at path (some (group, name)) e (lookup-IsBlock path group name c))
            (expands (path ∷ stack))))
    | inr c ↦ rw (c) (
        IfDone-if (IsBlock false) (not (str_eq group "actions")) (raised (invalid_ref (str path)))
          (raised (ref_type_mismatch path)) tt tt)
  ]

  follow_ref-IsBlock :
      (v : Value) → IfDone (IsBlock false) (follow_ref r only_conditions jump stack v)
  unfolding follow_ref
  follow_ref-IsBlock (str path) = follow-IsBlock path (split_dot path) refl
  follow_ref-IsBlock null = tt
  follow_ref-IsBlock (bool b) = tt
  follow_ref-IsBlock (num n) = tt
  follow_ref-IsBlock (list vs) = tt
  follow_ref-IsBlock (dict fs) = tt

  if_ref-Carries :
      (fs : Fields) (o : Option Value)
      → get "$ref" fs ≡ o
      → IfDone (Fieldwise true fs) (expand_fields r only_conditions jump stack fs)
      → IfDone (Carries true (dict fs)) (
          if_ref o
            (follow_ref r only_conditions jump stack)
            (expand_fields r only_conditions jump stack fs >>= (λ fs'. done (dict fs'))))
  if_ref-Carries fs (some ref) e h =
      IfDone-weaken (IsBlock false) (Carries true (dict fs))
        (follow_ref r only_conditions jump stack ref) (follow_ref-IsBlock ref)
        (λ v' h'. ref-Carries fs ref v' e h')
  if_ref-Carries fs none e h =
      IfDone-bind (Fieldwise true fs) (Carries true (dict fs))
        (expand_fields r only_conditions jump stack fs) (λ fs'. done (dict fs')) h
        (λ fs' c. mapping-Carries true (ground (arith, e)) c)

  mutual
    unfolding expand_value evaluable operator_ok

    value-Carries :
        (v : Value) → IfDone (Carries true v) (expand_value r only_conditions jump stack v)
    value-Carries null = scalar-Carries true null null refl (λ h. h)
    value-Carries (bool b) = scalar-Carries true (bool b) (bool b) refl (λ h. h)
    value-Carries (num n) = scalar-Carries true (num n) (num n) refl (λ h. h)
    value-Carries (str s) = scalar-Carries true (str s) (str s) refl (λ h. h)
    value-Carries (list vs) =
        IfDone-bind (λ vs'. items_evaluable true vs ≡ true → items_evaluable false vs' ≡ true)
          (Carries true (list vs)) (expand_items r only_conditions jump stack vs)
          (λ vs'. done (list vs')) (items_carry vs) (λ vs' p. list-Carries true vs vs' p)
    value-Carries (dict fs) = if_ref-Carries fs (get "$ref" fs) refl (fields_carry fs)

    fields_carry :
        (fs : Fields) → IfDone (Fieldwise true fs) (expand_fields r only_conditions jump stack fs)
    fields_carry end = no_fields
    fields_carry (field k v fs) =
        IfDone-bind (Carries true v) (Fieldwise true (field k v fs))
          (expand_value r only_conditions jump stack v) _ (value-Carries v)
          (λ v' c.
            IfDone-bind (Fieldwise true fs) (Fieldwise true (field k v fs))
              (expand_fields r only_conditions jump stack fs) (λ fs'. done (field k v' fs'))
              (fields_carry fs) (λ fs' cs. one_field c cs))

    items_carry :
        (vs : Items)
        → IfDone
            (λ vs'. items_evaluable true vs ≡ true → items_evaluable false vs' ≡ true)
            (expand_items r only_conditions jump stack vs)
    items_carry nil = λ h. h
    items_carry (cons v vs) =
        IfDone-bind (Carries true v)
          (λ ws. items_evaluable true (cons v vs) ≡ true → items_evaluable false ws ≡ true)
          (expand_value r only_conditions jump stack v) _ (value-Carries v)
          (λ v' c.
            IfDone-bind (λ vs'. items_evaluable true vs ≡ true → items_evaluable false vs' ≡ true)
              (λ ws. items_evaluable true (cons v vs) ≡ true → items_evaluable false ws ≡ true)
              (expand_items r only_conditions jump stack vs)
              (λ vs'. done (splice (is_ref v) v' vs')) (items_carry vs)
              (λ vs' p h.
                let hv = left_true (evaluable true v) (items_evaluable true vs) h in
                splice-evaluable (is_ref v) v' vs' (λ e. c.block (item-IsBlock true v hv))
                  (c.condition hv) (p (right_true (evaluable true v) (items_evaluable true vs) h))))

pub expand_refs_block :
    (r : RuleResolver) (fuel : ℕ) (stack : List String) (v : Value)
    → blocks_evaluable r.conditions ≡ true
    → IfDone (Carries true v) (expand_refs r only_conditions fuel stack v)
unfolding expand_refs
expand_refs_block r zero stack v blocks =
    value-Carries r (λ stack' w. out_of_fuel) stack blocks (λ stack' w h. tt) v
expand_refs_block r (suc fuel) stack v blocks =
    value-Carries r (expand_refs r only_conditions fuel) stack blocks
      (λ stack' w h.
        IfDone-weaken (Carries true w) (IsBlock false) (expand_refs r only_conditions fuel stack' w)
          (expand_refs_block r fuel stack' w blocks) (λ v' c. c.block h))
      v
