-- ===== src/Validation/Ids.antt =====
-- The rules that the loader's checks let through (src/qbt_rules/rules_validation.py:
-- `check_rules_structure`): mappings with their fields and different identifiers.
use qbt_rules.Prelude.{
  ℕ, suc, String, ◌≡◌, refl, ap, ◌∙◌, Bool, true, false, ◌&&◌, Option, none, some, List, [], ◌∷◌,
  ◌++◌, not, all, map, str_in, str_eq, eq_iff, is_some, if◌then◌else◌, arith,
}
use qbt_rules.Value.{
  Value, null, bool, num, str, list, dict, Items, nil, cons, get, has_key, to_list,
}
use qbt_rules.Validation.{Place, key, index, Issue}
use qbt_rules.Validation.Structure.{rule_id, check_rule, check_rules}
use qbt_rules.Validation.Rules.{nothing_in}

-- A mapping with a text for its identifier, with conditions and with actions.
abbrev pub is_rule : Value → Bool
is_rule (dict fs) =
    not (str_eq (rule_id (get "id" fs)) "") && has_key "conditions" fs && has_key "actions" fs
is_rule v = false

abbrev pub id_of : Value → String
id_of (dict fs) = rule_id (get "id" fs)
id_of v = ""

abbrev pub distinct : List String → Bool
distinct [] = true
distinct (x ∷ xs) = not (str_in x xs) && distinct xs

abbrev pub ids : Items → List String
ids vs = map id_of (to_list vs)

abbrev outside : List String → List String → Bool
outside seen xs = all (λ x. not (str_in x seen)) xs

nothing_in-append : (a b : List Issue) → nothing_in (a ++ b) ≡ nothing_in a && nothing_in b
nothing_in-append [] b = refl
nothing_in-append (i ∷ a) b = refl

-- one more identifier seen
outside_cons :
    (x : String) (seen xs : List String)
    → outside (x ∷ seen) xs ≡ not (str_in x xs) && outside seen xs
outside_cons x seen [] = refl
outside_cons x seen (y ∷ xs) = ground (arith, outside_cons x seen xs, eq_iff x y, eq_iff y x)

-- The tests of a mapping, in the order of the loop.
abbrev tests :
    Bool
    → Bool
    → List Issue
    → List Issue
    → List Issue × List String
    → List String
    → List Issue × List String
tests id_missing id_empty i j rest seen =
    if id_missing then (i, seen) else if id_empty then (j, seen) else rest

abbrev issues_of : Bool → Bool → Bool → Issue → Issue → Issue → List Issue
issues_of seen_before c a k l m =
    (if seen_before then k ∷ [] else []) ++ (if c then [] else l ∷ []) ++ (if a then [] else m ∷ [])

issues_exact :
    (seen_before c a : Bool) (k l m : Issue)
    → nothing_in (issues_of seen_before c a k l m) ≡ c && a && not seen_before
issues_exact true c a k l m = ground arith
issues_exact false true true k l m = refl
issues_exact false true false k l m = refl
issues_exact false false a k l m = refl

tests_exact :
    (id_missing id_empty c a seen_before : Bool) (i j : Issue) (rest : List Issue × List String)
    (seen : List String)
    → (id_missing ≡ true → id_empty ≡ true)
    → nothing_in (rest.0) ≡ c && a && not seen_before
    → nothing_in ((tests id_missing id_empty (i ∷ []) (j ∷ []) rest seen).0)
      ≡ not id_empty && c && a && not seen_before
tests_exact true true c a seen_before i j rest seen p q = refl
tests_exact true false c a seen_before i j rest seen p q = ground (arith, p refl)
tests_exact false true c a seen_before i j rest seen p q = refl
tests_exact false false c a seen_before i j rest seen p q = q

tests_seen :
    (id_missing id_empty : Bool) (i j : Issue) (rest : List Issue × List String)
    (seen : List String)
    → nothing_in ((tests id_missing id_empty (i ∷ []) (j ∷ []) rest seen).0) ≡ true
    → (tests id_missing id_empty (i ∷ []) (j ∷ []) rest seen).1 ≡ rest.1
tests_seen true id_empty i j rest seen h = ground (arith, h)
tests_seen false true i j rest seen h = ground (arith, h)
tests_seen false false i j rest seen h = refl

no_id : (o : Option Value) → not (is_some o) ≡ true → str_eq (rule_id o) "" ≡ true
no_id none h = refl
no_id (some v) h = ground (arith, h)

check_rule-exact :
    (seen : List String) (path : Place) (v : Value)
    → nothing_in ((check_rule seen path v).0) ≡ is_rule v && not (str_in (id_of v) seen)
unfolding check_rule
check_rule-exact seen path (dict fs) =
    tests_exact (not (has_key "id" fs)) (str_eq (rule_id (get "id" fs)) "")
      (has_key "conditions" fs) (has_key "actions" fs) (str_in (rule_id (get "id" fs)) seen) _ _ _ _
      (no_id (get "id" fs))
      (issues_exact (str_in (rule_id (get "id" fs)) seen) (has_key "conditions" fs)
        (has_key "actions" fs) _ _ _)
check_rule-exact seen path null = refl
check_rule-exact seen path (bool b) = refl
check_rule-exact seen path (num n) = refl
check_rule-exact seen path (str s) = refl
check_rule-exact seen path (list vs) = refl

-- after a rule that is let through, its identifier is among those seen
check_rule-seen :
    (seen : List String) (path : Place) (v : Value)
    → nothing_in ((check_rule seen path v).0) ≡ true
    → (check_rule seen path v).1 ≡ id_of v ∷ seen
unfolding check_rule
check_rule-seen seen path (dict fs) h =
    tests_seen (not (has_key "id" fs)) (str_eq (rule_id (get "id" fs)) "") _ _ _ _ h
check_rule-seen seen path null h = ground (arith, h)
check_rule-seen seen path (bool b) h = ground (arith, h)
check_rule-seen seen path (num n) h = ground (arith, h)
check_rule-seen seen path (str s) h = ground (arith, h)
check_rule-seen seen path (list vs) h = ground (arith, h)

-- One round of the loop against the three properties of the whole list.
step_exact :
    (n r f d o rest x y : Bool)
    → n ≡ r && not x
    → (n ≡ true → rest ≡ f && d && (not y && o))
    → n && rest ≡ (r && f) && (not y && d) && (not x && o)
step_exact true true f d o rest false y p q = ground (arith, q refl)
step_exact true true f d o rest true y p q = ground (arith, p)
step_exact true false f d o rest x y p q = ground (arith, p)
step_exact false true f d o rest true y p q = ground arith
step_exact false true f d o rest false y p q = ground (arith, p)
step_exact false false f d o rest x y p q = refl

check_rules-exact :
    (seen : List String) (i : ℕ) (vs : Items)
    → nothing_in (check_rules seen i vs)
      ≡ all is_rule (to_list vs) && distinct (ids vs) && outside seen (ids vs)
unfolding check_rules
check_rules-exact seen i nil = refl
check_rules-exact seen i (cons v vs) =
    let path = key "rules" ∷ index i ∷ [] in
    nothing_in-append ((check_rule seen path v).0)
      (check_rules ((check_rule seen path v).1) (suc i) vs)
    ∙ step_exact (nothing_in ((check_rule seen path v).0)) (is_rule v) (all is_rule (to_list vs))
        (distinct (ids vs)) (outside seen (ids vs)) _ (str_in (id_of v) seen)
        (str_in (id_of v) (ids vs)) (check_rule-exact seen path v)
        (λ h. rw (check_rule-seen seen path v h) (
          check_rules-exact (id_of v ∷ seen) (suc i) vs
          ∙ ap (λ b. all is_rule (to_list vs) && distinct (ids vs) && b)
              (outside_cons (id_of v) seen (ids vs))))

nothing_outside : (xs : List String) → outside [] xs ≡ true
nothing_outside [] = refl
nothing_outside (x ∷ xs) = nothing_outside xs

-- The checks of the list of rules find nothing exactly where every rule is a mapping with a text
-- that is not empty for its id, with conditions and with actions, and no two rules have the same
-- id.
pub check_rules_accepts :
    (vs : Items) → nothing_in (check_rules [] 0 vs) ≡ all is_rule (to_list vs) && distinct (ids vs)
check_rules_accepts vs = ground (arith, check_rules-exact [] 0 vs, nothing_outside (ids vs))
