-- ===== src/Validation/Evaluated.antt =====
-- The evaluation of conditions that the linter lets through (src/qbt_rules/engine.py and
-- src/qbt_rules/rules_validation.py): what it may raise.
use qbt_rules.Prelude.{◌≡◌, refl, Bool, true, false, ◌&&◌, str_eq, if◌then◌else◌, arith}
use qbt_rules.Value.{
  Value, null, bool, num, str, list, dict, Items, nil, cons, Fields, end, field, has_key,
}
use qbt_rules.Conditions.{ok, Runtime}
use qbt_rules.Conditions.State.{Stats}
use qbt_rules.Conditions.Evaluate.{has_group}
use qbt_rules.Conditions.Snapshot.{
  Snapshot, bind, holds, all_hold, any_hold, none_hold, each_holds, some_holds, each_item_holds,
  some_item_holds, groups_hold, conditions_hold,
}
use qbt_rules.Validation.Evaluable.{
  left_true, right_true, leaf_ok, evaluable, group_evaluable, list_evaluable, items_evaluable,
  top_evaluable,
}
use qbt_rules.Validation.Operators.{benign}
use qbt_rules.Validation.Leaves.{
  AnswersOrFails, bind-benign, if_then, groups-benign, mapping-benign, either_evaluable,
  without_ref, leaf_holds-benign,
}

module _ (rt : Runtime) (snap : Snapshot) (stats : Stats) (torrent : Fields)
    (answers : AnswersOrFails snap) where
  three-benign :
      (fs : Fields) (x y z : Bool)
      → x && y && z ≡ true
      → (x ≡ true → benign (all_hold rt snap stats torrent fs) ≡ true)
      → (y ≡ true → benign (any_hold rt snap stats torrent fs) ≡ true)
      → (z ≡ true → benign (none_hold rt snap stats torrent fs) ≡ true)
      → benign (
          bind (all_hold rt snap stats torrent fs) (λ a.
            if a
            then bind
                (any_hold rt snap stats torrent fs)
                (λ b. if b then none_hold rt snap stats torrent fs else ok false)
            else ok false))
        ≡ true
  three-benign fs x y z h p q r =
      groups-benign (all_hold rt snap stats torrent fs) (any_hold rt snap stats torrent fs)
        (none_hold rt snap stats torrent fs) (p (left_true x y (left_true (x && y) z h)))
        (q (right_true x y (left_true (x && y) z h))) (r (right_true (x && y) z h))

  mutual
    unfolding holds evaluable

    holds-benign :
        (v : Value) → evaluable false v ≡ true → benign (holds rt snap stats torrent v) ≡ true
    holds-benign (dict fs) h =
        mapping-benign (has_key "$ref" fs) (has_group fs) (group_evaluable false "all" fs)
          (group_evaluable false "any" fs) (group_evaluable false "none" fs) (leaf_ok fs) _ _ h
          (λ g.
            three-benign fs (group_evaluable false "all" fs) (group_evaluable false "any" fs)
              (group_evaluable false "none" fs) g (all-benign fs) (any-benign fs) (none-benign fs))
          (λ l. leaf_holds-benign rt snap stats torrent answers fs l)
    holds-benign null h = refl
    holds-benign (bool b) h = refl
    holds-benign (num n) h = refl
    holds-benign (str s) h = refl
    holds-benign (list vs) h = refl

    all-benign :
        (fs : Fields)
        → group_evaluable false "all" fs ≡ true
        → benign (all_hold rt snap stats torrent fs) ≡ true
    all-benign end h = refl
    all-benign (field k v fs) h =
        either_evaluable (str_eq k "all") (list_evaluable false v) (group_evaluable false "all" fs)
          _ _ h (each-benign v) (all-benign fs)

    any-benign :
        (fs : Fields)
        → group_evaluable false "any" fs ≡ true
        → benign (any_hold rt snap stats torrent fs) ≡ true
    any-benign end h = refl
    any-benign (field k v fs) h =
        either_evaluable (str_eq k "any") (list_evaluable false v) (group_evaluable false "any" fs)
          _ _ h (some-benign v) (any-benign fs)

    none-benign :
        (fs : Fields)
        → group_evaluable false "none" fs ≡ true
        → benign (none_hold rt snap stats torrent fs) ≡ true
    none-benign end h = refl
    none-benign (field k v fs) h =
        either_evaluable (str_eq k "none") (list_evaluable false v)
          (group_evaluable false "none" fs) _ _ h
          (λ g. bind-benign (some_holds rt snap stats torrent v) _ (some-benign v g) (λ b. refl))
          (none-benign fs)

    each-benign :
        (v : Value)
        → list_evaluable false v ≡ true
        → benign (each_holds rt snap stats torrent v) ≡ true
    each-benign (list vs) h = each_item-benign vs h
    each-benign null h = refl
    each-benign (bool b) h = refl
    each-benign (num n) h = refl
    each-benign (str s) h = ground (arith, h)
    each-benign (dict fs) h = ground (arith, h)

    some-benign :
        (v : Value)
        → list_evaluable false v ≡ true
        → benign (some_holds rt snap stats torrent v) ≡ true
    some-benign (list vs) h = some_item-benign vs h
    some-benign null h = refl
    some-benign (bool b) h = refl
    some-benign (num n) h = refl
    some-benign (str s) h = ground (arith, h)
    some-benign (dict fs) h = ground (arith, h)

    each_item-benign :
        (vs : Items)
        → items_evaluable false vs ≡ true
        → benign (each_item_holds rt snap stats torrent vs) ≡ true
    each_item-benign nil h = refl
    each_item-benign (cons v vs) h =
        bind-benign (holds rt snap stats torrent v) _
          (holds-benign v (left_true (evaluable false v) (items_evaluable false vs) h))
          (λ b.
            if_then b (each_item_holds rt snap stats torrent vs) (ok false)
              (each_item-benign vs (right_true (evaluable false v) (items_evaluable false vs) h))
              refl)

    some_item-benign :
        (vs : Items)
        → items_evaluable false vs ≡ true
        → benign (some_item_holds rt snap stats torrent vs) ≡ true
    some_item-benign nil h = refl
    some_item-benign (cons v vs) h =
        bind-benign (holds rt snap stats torrent v) _
          (holds-benign v (left_true (evaluable false v) (items_evaluable false vs) h))
          (λ b.
            if_then b (ok true) (some_item_holds rt snap stats torrent vs) refl
              (some_item-benign vs (right_true (evaluable false v) (items_evaluable false vs) h)))

  pub conditions_hold-benign :
      (v : Value)
      → top_evaluable false v ≡ true
      → benign (conditions_hold rt snap stats torrent v) ≡ true
  unfolding conditions_hold groups_hold
  conditions_hold-benign (list vs) h = each_item-benign vs h
  conditions_hold-benign (dict fs) h =
      three-benign fs (group_evaluable false "all" fs) (group_evaluable false "any" fs)
        (group_evaluable false "none" fs) (without_ref (has_key "$ref" fs) _ h) (all-benign fs)
        (any-benign fs) (none-benign fs)
  conditions_hold-benign null h = refl
  conditions_hold-benign (bool b) h = refl
  conditions_hold-benign (num n) h = refl
  conditions_hold-benign (str s) h = ground (arith, h)
