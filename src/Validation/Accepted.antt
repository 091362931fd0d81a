-- ===== src/Validation/Accepted.antt =====
-- What a clean report says of the conditions it is about.
use qbt_rules.Prelude.{
  ℕ, suc, String, ◌≡◌, refl, true, false, ◌&&◌, Option, none, some, [], ◌∷◌, str_in, str_eq,
  is_some, if◌then◌else◌, arith,
}
use qbt_rules.Value.{
  Value, null, bool, num, str, list, dict, Items, nil, cons, Fields, end, field, get, has_key,
}
use qbt_rules.Conditions.{Runtime}
use qbt_rules.Conditions.Evaluate.{has_group}
use qbt_rules.Schema.{Kind, condition_groups}
use qbt_rules.Validation.{
  info, no_group, several_groups, missing_keys, error, add, clean, Place, ◌/:◌, key, index, Report,
  ◌<+>◌, no_errors,
}
use qbt_rules.Validation.Linter.{condition_blocks}
use qbt_rules.Validation.Conditions.{
  ref_siblings, several, kind_of, ignored_keys, is_leaf_key, first_missing, check_field,
  check_operator, check_value, check_leaf, condition, group_at, group, conditions_from,
  top_conditions, condition_block,
}
use qbt_rules.Validation.Evaluable.{
  operator_ok, leaf_ok, evaluable, group_evaluable, list_evaluable, items_evaluable, top_evaluable,
  block_evaluable, blocks_evaluable, both_true,
}
use qbt_rules.Validation.Reports.{clean_both, either_way, mapping_cases, top_cases, block_cases}

module _ (rt : Runtime) (vars : Fields) where
  kind_lem :
      (o : Option Kind) (v : Option Value) (path : Place)
      → no_errors (check_value rt vars o v path) ≡ true
      → is_some o ≡ true
  unfolding no_errors
  kind_lem (some kind) v path h = refl
  kind_lem none v path h = ground (arith, h)

  operator_lem :
      (o v : Option Value) (path : Place)
      → is_some o ≡ true
      → no_errors (check_operator rt vars o v path) ≡ true
      → operator_ok o ≡ true
  unfolding no_errors check_operator operator_ok
  operator_lem (some (str s)) v path e h = kind_lem (kind_of (str s)) v path h
  operator_lem (some null) v path e h = ground (arith, h)
  operator_lem (some (bool b)) v path e h = ground (arith, h)
  operator_lem (some (num n)) v path e h = ground (arith, h)
  operator_lem (some (list vs)) v path e h = ground (arith, h)
  operator_lem (some (dict fs)) v path e h = ground (arith, h)
  operator_lem none v path e h = ground (arith, e)

  -- the four checks of a condition, on its parts
  parts_lem :
      (f o v : Option Value) (a b : Report) (path : Place)
      → no_errors (
          (if is_some f && is_some o && is_some v then clean else a)
          <+> b
          <+> (elim f [ none ↦ clean | some w ↦ check_field w (path /: key "field") ])
          <+> check_operator rt vars o v path)
        ≡ true
      → no_errors a ≡ false
      → is_some f && operator_ok o && is_some v ≡ true
  parts_lem none o v a b path h e = ground (arith, (clean_both a _ h).0, e)
  parts_lem (some w) none v a b path h e = ground (arith, (clean_both a _ h).0, e)
  parts_lem (some w) (some x) none a b path h e = ground (arith, (clean_both a _ h).0, e)
  parts_lem (some w) (some x) (some y) a b path h e =
      let (h', hc) =
        clean_both (check_field w (path /: key "field"))
          (check_operator rt vars (some x) (some y) path)
          ((clean_both b _ ((clean_both clean _ h).1)).1) in
      both_true (operator_ok (some x)) true (operator_lem (some x) (some y) path refl hc) refl

  leaf_lem :
      (fs : Fields) (path : Place)
      → no_errors (check_leaf rt vars fs path) ≡ true
      → leaf_ok fs ≡ true
  unfolding check_leaf no_errors
  leaf_lem fs path h =
      parts_lem (get "field" fs) (get "operator" fs) (get "value" fs)
        (add error (missing_keys (first_missing fs)) path) (ignored_keys is_leaf_key fs path) path h
        refl

  mutual
    unfolding condition evaluable no_errors

    condition_lem :
        (v : Value) (path : Place)
        → no_errors (condition rt vars v path) ≡ true
        → evaluable true v ≡ true
    condition_lem (dict fs) path h =
        mapping_cases (has_key "$ref" fs) (has_group fs) (ref_siblings fs path)
          (if several fs then add error several_groups path else clean)
          (group_at rt vars "all" fs path) (group_at rt vars "any" fs path)
          (group_at rt vars "none" fs path) (check_leaf rt vars fs path)
          (group_evaluable true "all" fs) (group_evaluable true "any" fs)
          (group_evaluable true "none" fs) (leaf_ok fs) h (group_at_lem "all" fs path)
          (group_at_lem "any" fs path) (group_at_lem "none" fs path) (leaf_lem fs path)
    condition_lem null path h = ground (arith, h)
    condition_lem (bool b) path h = ground (arith, h)
    condition_lem (num n) path h = ground (arith, h)
    condition_lem (str s) path h = ground (arith, h)
    condition_lem (list vs) path h = ground (arith, h)

    group_at_lem :
        (name : String) (fs : Fields) (path : Place)
        → no_errors (group_at rt vars name fs path) ≡ true
        → group_evaluable true name fs ≡ true
    group_at_lem name end path h = refl
    group_at_lem name (field k v fs) path h =
        either_way (str_eq k name) (group rt vars v (path /: key name))
          (group_at rt vars name fs path) (list_evaluable true v) (group_evaluable true name fs) h
          (group_lem v (path /: key name)) (group_at_lem name fs path)

    group_lem :
        (v : Value) (path : Place)
        → no_errors (group rt vars v path) ≡ true
        → list_evaluable true v ≡ true
    group_lem (list nil) path h = refl
    group_lem (list (cons v vs)) path h =
        let (hv, hvs) =
          clean_both (condition rt vars v (path /: index 0)) (conditions_from rt vars 1 vs path)
            h in
        both_true (evaluable true v) (items_evaluable true vs)
          (condition_lem v (path /: index 0) hv) (items_lem 1 vs path hvs)
    group_lem (dict fs) path h = ground (arith, h)
    group_lem null path h = ground (arith, h)
    group_lem (bool b) path h = ground (arith, h)
    group_lem (num n) path h = ground (arith, h)
    group_lem (str s) path h = ground (arith, h)

    items_lem :
        (i : ℕ) (vs : Items) (path : Place)
        → no_errors (conditions_from rt vars i vs path) ≡ true
        → items_evaluable true vs ≡ true
    items_lem i nil path h = refl
    items_lem i (cons v vs) path h =
        let (hv, hvs) =
          clean_both (condition rt vars v (path /: index i))
            (conditions_from rt vars (suc i) vs path) h in
        both_true (evaluable true v) (items_evaluable true vs)
          (condition_lem v (path /: index i) hv) (items_lem (suc i) vs path hvs)

module _ (rt : Runtime) (vars : Fields) where
  pub top_lem :
      (v : Value) (path : Place)
      → no_errors (top_conditions rt vars v path) ≡ true
      → top_evaluable true v ≡ true
  unfolding top_conditions no_errors evaluable
  top_lem (list nil) path h = refl
  top_lem (list (cons v vs)) path h = items_lem rt vars 0 (cons v vs) path h
  top_lem (dict fs) path h =
      top_cases (has_key "$ref" fs) (ref_siblings fs path)
        (ignored_keys (λ k. str_in k condition_groups) fs path)
        (if has_group fs then clean else add error no_group path) (group_at rt vars "all" fs path)
        (group_at rt vars "any" fs path) (group_at rt vars "none" fs path)
        (group_evaluable true "all" fs) (group_evaluable true "any" fs)
        (group_evaluable true "none" fs) h (group_at_lem rt vars "all" fs path)
        (group_at_lem rt vars "any" fs path) (group_at_lem rt vars "none" fs path)
  top_lem null path h = ground (arith, h)
  top_lem (bool b) path h = ground (arith, h)
  top_lem (num n) path h = ground (arith, h)
  top_lem (str s) path h = ground (arith, h)

  block_lem :
      (v : Value) (path : Place)
      → no_errors (condition_block rt vars v path) ≡ true
      → block_evaluable true v ≡ true
  unfolding condition_block no_errors evaluable
  block_lem (list vs) path h = items_lem rt vars 0 vs path h
  block_lem (dict fs) path h =
      block_cases (has_key "$ref" fs) (has_group fs) (ref_siblings fs path)
        (if several fs then add info several_groups path else clean)
        (group_at rt vars "all" fs path) (group_at rt vars "any" fs path)
        (group_at rt vars "none" fs path) (condition rt vars (dict fs) path)
        (group_evaluable true "all" fs) (group_evaluable true "any" fs)
        (group_evaluable true "none" fs) (leaf_ok fs) h (group_at_lem rt vars "all" fs path)
        (group_at_lem rt vars "any" fs path) (group_at_lem rt vars "none" fs path)
        (condition_lem rt vars (dict fs) path)
  block_lem null path h = ground (arith, h)
  block_lem (bool b) path h = ground (arith, h)
  block_lem (num n) path h = ground (arith, h)
  block_lem (str s) path h = ground (arith, h)

  pub blocks_lem :
      (notifications : Option Fields) (fs : Fields)
      → no_errors (condition_blocks rt notifications vars fs) ≡ true
      → blocks_evaluable fs ≡ true
  unfolding condition_blocks
  blocks_lem notifications end h = refl
  blocks_lem notifications (field k v fs) h =
      let (hv, hfs) =
        clean_both (condition_block rt vars v (key "refs" ∷ key "conditions" ∷ key k ∷ []))
          (condition_blocks rt notifications vars fs) h in
      both_true (block_evaluable true v) (blocks_evaluable fs)
        (block_lem v (key "refs" ∷ key "conditions" ∷ key k ∷ []) hv)
        (blocks_lem notifications fs hfs)
