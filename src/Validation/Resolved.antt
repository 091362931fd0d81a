-- ===== src/Validation/Resolved.antt =====
-- A rule whose conditions the linter lets through, after the resolver (src/qbt_rules/resolver.py): its
-- conditions can be evaluated.
use qbt_rules.Prelude.{
  String, ◌≡◌, inl, inr, refl, Bool, true, false, ◌||◌, Option, none, some, [], ◌∷◌, length, str_eq,
  eq_iff, eq_refl, Bool-cases, if◌then◌else◌, arith,
}
use qbt_rules.Value.{Value, Fields, end, field, get, put}
use qbt_rules.Conditions.{Runtime}
use qbt_rules.Resolver.{Outcome, done, RuleResolver, ref_paths}
use qbt_rules.Resolver.Plain.{IfDone, IfDone-bind, IfDone-weaken, anything}
use qbt_rules.Resolver.Rule.{
  expand, expand_found, expand_key, expand_others, expand_rule, resolve_rule,
}
use qbt_rules.Resolver.Tokens.{substitute_fields}
use qbt_rules.Validation.Evaluable.{top_evaluable, blocks_evaluable}
use qbt_rules.Validation.Carried.{Carries, Fieldwise, no_fields, one_field}
use qbt_rules.Validation.Expanded.{only_conditions, expand_refs_block}
use qbt_rules.Validation.Substituted.{token_fields_carry}

abbrev pub top_if : Bool → Option Value → Bool
top_if refs none = true
top_if refs (some v) = top_evaluable refs v

-- The rule's conditions, if it has some, can be evaluated.
abbrev pub Ready : Bool → Fields → Type 0
Ready refs fs = top_if refs (get "conditions" fs) ≡ true

get-put-same : (k : String) (v : Value) (fs : Fields) → get k (put k v fs) ≡ some v
unfolding get put
get-put-same k v end = rw (eq_refl k)
get-put-same k v (field j w fs) = elim (Bool-cases (str_eq j k)) [
  | inl e ↦ rw (e, eq_refl k)
  | inr e ↦ rw (e, e, get-put-same k v fs)
]

get-put-other :
    (k j : String) (v : Value) (fs : Fields) → str_eq j k ≡ false → get k (put j v fs) ≡ get k fs
unfolding get put
get-put-other k j v end e = rw (e)
get-put-other k j v (field i w fs) e = elim (Bool-cases (str_eq i j)) [
  | inl p ↦ rw (p, e, (eq_iff i j).0 p, e)
  | inr p ↦ rw (p, get-put-other k j v fs e)
]

taken :
    (b c d : Bool) (v : Value) (m : Outcome Value)
    → IfDone (λ v'. b ≡ true → v' ≡ v) (if b || c || d then done v else m)
taken true c d v m = λ e. refl
taken false true d v m = λ e. refl
taken false false true v m = λ e. refl
taken false false false v m =
    IfDone-weaken (λ v'. Unit {0}) (λ v'. false ≡ true → v' ≡ v) m (anything m)
      (λ v' u e. ground (arith, e))

same_field :
    (b : Bool) (v v' : Value) (o o' : Option Value)
    → (b ≡ true → v' ≡ v)
    → o' ≡ o
    → (if b then some v' else o') ≡ (if b then some v else o)
same_field true v v' o o' p q = rw (p refl)
same_field false v v' o o' p q = q

found_ready :
    (b : Bool) (v v' : Value) (o o' : Option Value)
    → top_if false (if b then some v else o) ≡ true
    → (top_evaluable false v ≡ true → top_evaluable false v' ≡ true)
    → (top_if false o ≡ true → top_if false o' ≡ true)
    → top_if false (if b then some v' else o') ≡ true
found_ready true v v' o o' h p q = p h
found_ready false v v' o o' h p q = q h

Ready-kept : {fs fs' : Fields} → Fieldwise false fs fs' → Ready false fs → Ready false fs'
unfolding get
Ready-kept no_fields h = h
Ready-kept (one_field {k} {v} {v'} {fs} {fs'} c cs) h =
    found_ready (str_eq k "conditions") v v' (get "conditions" fs) (get "conditions" fs') h c.top
      (Ready-kept cs)

module _ (r : RuleResolver) (blocks : blocks_evaluable r.conditions ≡ true) where
  conditions-Ready :
      (fs : Fields) (o : Option Value)
      → get "conditions" fs ≡ o
      → top_if true o ≡ true
      → IfDone (Ready false) (expand_found r "conditions" o fs)
  unfolding expand
  conditions-Ready fs none e h = rw (e)
  conditions-Ready fs (some v) e h =
      IfDone-bind (Carries true v) (Ready false) (expand r only_conditions v)
        (λ v'. done (put "conditions" v' fs))
        (expand_refs_block r (length (ref_paths r)) [] v blocks)
        (λ v' c. rw (get-put-same "conditions" v' fs) (c.top h))

  actions-Ready :
      (fs : Fields) (o : Option Value)
      → Ready false fs
      → IfDone (Ready false) (expand_found r "actions" o fs)
  actions-Ready fs none h = h
  actions-Ready fs (some v) h =
      IfDone-bind (λ v'. Unit {0}) (Ready false) (expand r (some ("actions" ∷ [])) v)
        (λ v'. done (put "actions" v' fs)) (anything _)
        (λ v' u. rw (get-put-other "conditions" "actions" v' fs refl) h)

  others_ready :
      (fs : Fields)
      → IfDone (λ fs'. get "conditions" fs' ≡ get "conditions" fs) (expand_others r fs)
  unfolding expand_others get
  others_ready end = refl
  others_ready (field k v fs) =
      IfDone-bind (λ v'. str_eq k "conditions" ≡ true → v' ≡ v) _ _ _
        (taken (str_eq k "conditions") (str_eq k "actions") (str_eq k "id") v (expand r none v))
        (λ v' same.
          IfDone-bind (λ fs'. get "conditions" fs' ≡ get "conditions" fs) _ (expand_others r fs) _
            (others_ready fs)
            (λ fs' e.
              same_field (str_eq k "conditions") v v' (get "conditions" fs) (get "conditions" fs')
                same e))

  rule-Ready :
      (fs : Fields)
      → top_if true (get "conditions" fs) ≡ true
      → IfDone (Ready false) (expand_rule r fs)
  unfolding expand_rule expand_key
  rule-Ready fs h =
      IfDone-bind (Ready false) (Ready false) _ (expand_others r)
        (IfDone-bind (Ready false) (Ready false) _ (expand_key r "actions")
          (conditions-Ready fs (get "conditions" fs) refl h)
          (λ fs' p. actions-Ready fs' (get "actions" fs') p))
        (λ fs' p.
          IfDone-weaken _ (Ready false) (expand_others r fs') (others_ready fs')
            (λ fs'' e. rw (e) p))

  pub resolved-Ready :
      (rt : Runtime) (fs : Fields)
      → top_if true (get "conditions" fs) ≡ true
      → IfDone (Ready false) (resolve_rule r rt fs)
  unfolding resolve_rule
  resolved-Ready rt fs h =
      IfDone-bind (Ready false) (Ready false) (expand_rule r fs) (substitute_fields rt r fs)
        (rule-Ready fs h)
        (λ fs' p.
          IfDone-weaken (Fieldwise false fs') (Ready false) (substitute_fields rt r fs fs')
            (token_fields_carry rt r fs fs') (λ fs'' c. Ready-kept c p))
