-- ===== src/Conditions/Transparency.antt =====
-- ConditionEvaluator (src/qbt_rules/engine.py) against the meaning of conditions on a snapshot.
use qbt_rules.Prelude.{
  String, ◌≡◌, refl, ap, Bool, true, false, ◌||◌, Option, some, not, str_eq, if◌then◌else◌,
  Bool-cases, Option-cases, inl, inr,
}
use qbt_rules.Value.{Value, str, list, dict, Items, nil, cons, Fields, end, field, get}
use qbt_rules.Utils.{split_dot, contains}
use qbt_rules.Conditions.{field_error, type_error, key_error, Result, ok, err, Runtime}
use qbt_rules.Conditions.State.{Stats, State, Action, pure, ◌>>=◌}
use qbt_rules.Conditions.Operators.{apply_operator}
use qbt_rules.Conditions.Lookup.{
  route, get_field_value, hash_of, file_values, info_value, stat_value,
}
use qbt_rules.Conditions.Evaluate.{
  has_group, operator_text, loop_over, context_allows, caught, compare_field, leaf_parts,
  evaluate_leaf, evaluate_condition, group_all, group_any, group_none, evaluate_all, evaluate_any,
  evaluate_all_items, evaluate_any_items, evaluate_groups, evaluate_conditions, evaluate,
}
use qbt_rules.Conditions.Snapshot.{
  Snapshot, bind, read_endpoint, read_field, compares, parts_hold, leaf_holds, holds, all_hold,
  any_hold, none_hold, each_holds, some_holds, each_item_holds, some_item_holds, groups_hold,
  conditions_hold, or_false, rule_matches,
}
use qbt_rules.Conditions.Caching.{
  Steady, Coherent, Reads, Reads-lift, Reads-bind, Reads-trackers, Reads-files, Reads-peers,
  Reads-webseeds, Reads-properties, Reads-transfer, Reads-app,
}
use qbt_rules.Api.{Api}

module _ {W : Type 0} (snap : Snapshot) (stats : Stats) where
  Reads-if :
      {A : Type 0} (b : Bool) (m n : Action W A) (r q : Result A)
      → Reads snap stats m r
      → Reads snap stats n q
      → Reads snap stats (if b then m else n) (if b then r else q)
  Reads-if true m n r q km kn = km
  Reads-if false m n r q km kn = kn

  Reads-stats :
      (name : String)
      → Reads {W = W} snap stats
          (λ s. (ok (stat_value s.evaluator.stats name), s))
          (ok (stat_value stats name))
  Reads-stats name = record {
    result = λ s h. ap (λ st. ok (stat_value st name)) h.same_stats;
    after = λ s h. h;
  }

module _ {W : Type 0} (rt : Runtime) (snap : Snapshot) (stats : Stats) (api : Api W)
    (steady : Steady api snap) (torrent : Fields) where
  abbrev Lifts : {A : Type 0} → Action W A → Result A → Type 0
  Lifts = Reads snap stats

  then_pure :
      {A B : Type 0} (m : Action W A) (r : Result A) (f : A → B)
      → Lifts m r
      → Lifts (m >>= (λ a. pure (f a))) (bind r (λ a. ok (f a)))
  then_pure m r f k = Reads-bind snap stats m r _ _ k (λ a. Reads-lift snap stats (ok (f a)))

  reads_route :
      (path endpoint name : String)
      → Lifts
          (route api torrent path endpoint name)
          (read_endpoint rt snap stats torrent path endpoint name)
  unfolding route read_endpoint
  reads_route path endpoint name =
      let h = hash_of torrent in
      Reads-if snap stats (str_eq endpoint "info") _ _ _ _
        (Reads-lift snap stats (ok (info_value name torrent)))
        (Reads-if snap stats (str_eq endpoint "trackers") _ _ _ _
          (then_pure _ _ _ (Reads-trackers snap stats api steady h))
          (Reads-if snap stats (str_eq endpoint "files") _ _ _ _
            (Reads-bind snap stats _ _ _ _ (Reads-files snap stats api steady h)
              (λ items. Reads-lift snap stats (file_values path h name items)))
            (Reads-if snap stats (str_eq endpoint "peers") _ _ _ _
              (then_pure _ _ _ (Reads-peers snap stats api steady h))
              (Reads-if snap stats (str_eq endpoint "properties") _ _ _ _
                (then_pure _ _ _ (Reads-properties snap stats api steady h))
                (Reads-if snap stats (str_eq endpoint "webseeds") _ _ _ _
                  (then_pure _ _ _ (Reads-webseeds snap stats api steady h))
                  (Reads-if snap stats (str_eq endpoint "transfer") _ _ _ _
                    (then_pure _ _ _ (Reads-transfer snap stats api steady))
                    (Reads-if snap stats (str_eq endpoint "app") _ _ _ _
                      (then_pure _ _ _ (Reads-app snap stats api steady))
                      (Reads-if snap stats (str_eq endpoint "stats") _ _ _ _
                        (Reads-stats snap stats name)
                        (Reads-lift snap stats (err field_error))))))))))

  reads_field :
      (path : String)
      → Lifts (get_field_value api torrent path) (read_field rt snap stats torrent path)
  unfolding get_field_value read_field
  reads_field path = elim (Option-cases (split_dot path)) [
    | inl e ↦ rw (get_field_value, read_field, e) (Reads-lift snap stats (err field_error))
    | inr ((endpoint, name), e) ↦
        rw (get_field_value, read_field, e) (reads_route path endpoint name)
  ]

  reads_compare :
      (path op value : Value)
      → Lifts
          (compare_field rt api torrent path op value)
          (compares rt snap stats torrent path op value)
  reads_compare (str path) op value =
      Reads-bind snap stats _ _ _ _ (reads_field path)
        (λ actual. Reads-lift snap stats (apply_operator rt actual (operator_text op) value))
  reads_compare _ op value = Reads-lift snap stats (err type_error)

  reads_parts :
      (path op value : Option Value)
      → Lifts
          (leaf_parts rt api torrent path op value)
          (parts_hold rt snap stats torrent path op value)
  reads_parts (some path) (some op) (some value) = reads_compare path op value
  reads_parts _ _ _ = Reads-lift snap stats (err key_error)

  -- the three groups of a dictionary, in their order
  reads_groups :
      (a b c : Action W Bool) (ra rb rc : Result Bool)
      → Lifts a ra
      → Lifts b rb
      → Lifts c rc
      → Lifts
          (a >>= (λ x. if x then b >>= (λ y. if y then c else pure false) else pure false))
          (bind ra (λ x. if x then bind rb (λ y. if y then rc else ok false) else ok false))
  reads_groups a b c ra rb rc ka kb kc = Reads-bind snap stats a ra _ _ ka λ x.
      Reads-if snap stats x _ _ _ _
        (Reads-bind snap stats b rb _ _ kb λ y.
          Reads-if snap stats y c (pure false) rc (ok false) kc (Reads-lift snap stats (ok false)))
        (Reads-lift snap stats (ok false))

  mutual
    unfolding evaluate_condition evaluate_leaf holds leaf_holds

    sim_condition :
        (v : Value) → Lifts (evaluate_condition rt api torrent v) (holds rt snap stats torrent v)
    sim_condition (dict fs) =
        Reads-if snap stats (has_group fs) _ _ _ _
          (reads_groups _ _ _ _ _ _ (sim_group_all fs) (sim_group_any fs) (sim_group_none fs))
          (reads_parts (get "field" fs) (get "operator" fs) (get "value" fs))
    sim_condition _ = Reads-lift snap stats (err type_error)

    sim_group_all :
        (fs : Fields) → Lifts (group_all rt api torrent fs) (all_hold rt snap stats torrent fs)
    sim_group_all end = Reads-lift snap stats (ok true)
    sim_group_all (field k v fs) =
        Reads-if snap stats (str_eq k "all") _ _ _ _ (sim_all v) (sim_group_all fs)

    sim_group_any :
        (fs : Fields) → Lifts (group_any rt api torrent fs) (any_hold rt snap stats torrent fs)
    sim_group_any end = Reads-lift snap stats (ok true)
    sim_group_any (field k v fs) =
        Reads-if snap stats (str_eq k "any") _ _ _ _ (sim_any v) (sim_group_any fs)

    sim_group_none :
        (fs : Fields) → Lifts (group_none rt api torrent fs) (none_hold rt snap stats torrent fs)
    sim_group_none end = Reads-lift snap stats (ok true)
    sim_group_none (field k v fs) =
        Reads-if snap stats (str_eq k "none") _ _ _ _ (then_pure _ _ not (sim_any v))
          (sim_group_none fs)

    sim_all :
        (v : Value) → Lifts (evaluate_all rt api torrent v) (each_holds rt snap stats torrent v)
    sim_all (list vs) = sim_all_items vs
    sim_all v = Reads-lift snap stats (loop_over v true)

    sim_any :
        (v : Value) → Lifts (evaluate_any rt api torrent v) (some_holds rt snap stats torrent v)
    sim_any (list vs) = sim_any_items vs
    sim_any v = Reads-lift snap stats (loop_over v false)

    sim_all_items :
        (vs : Items)
        → Lifts (evaluate_all_items rt api torrent vs) (each_item_holds rt snap stats torrent vs)
    sim_all_items nil = Reads-lift snap stats (ok true)
    sim_all_items (cons v vs) =
        Reads-bind snap stats _ _ _ _ (sim_condition v)
          λ b. Reads-if snap stats b _ _ _ _ (sim_all_items vs) (Reads-lift snap stats (ok false))

    sim_any_items :
        (vs : Items)
        → Lifts (evaluate_any_items rt api torrent vs) (some_item_holds rt snap stats torrent vs)
    sim_any_items nil = Reads-lift snap stats (ok false)
    sim_any_items (cons v vs) =
        Reads-bind snap stats _ _ _ _ (sim_condition v)
          λ b. Reads-if snap stats b _ _ _ _ (Reads-lift snap stats (ok true)) (sim_any_items vs)

  sim_groups :
      (v : Value) → Lifts (evaluate_groups rt api torrent v) (groups_hold rt snap stats torrent v)
  unfolding evaluate_groups groups_hold
  sim_groups (dict fs) =
      reads_groups _ _ _ _ _ _ (sim_group_all fs) (sim_group_any fs) (sim_group_none fs)
  sim_groups (str s) =
      Reads-if snap stats (contains "all" s || contains "any" s || contains "none" s) _ _ _ _
        (Reads-lift snap stats (err type_error)) (Reads-lift snap stats (ok true))
  sim_groups _ = Reads-lift snap stats (err type_error)

  sim_conditions :
      (v : Value)
      → Lifts (evaluate_conditions rt api torrent v) (conditions_hold rt snap stats torrent v)
  unfolding evaluate_conditions conditions_hold
  sim_conditions (list vs) = sim_all_items vs
  sim_conditions (dict fs) = sim_groups (dict fs)
  sim_conditions _ = sim_groups _

  caught-or_false :
      (m : Result Bool × State W) (r : Result Bool)
      → m.0 ≡ r
      → ((caught m).0 ≡ or_false r) × ((caught m).1 ≡ m.1)
  caught-or_false (ok b, s) r e = (ap or_false e, refl)
  caught-or_false (err x, s) r e = (ap or_false e, refl)

  -- On a server that answers every read as a fixed snapshot does, and from caches that hold only
  -- such answers, evaluate returns whether the rule matches on the snapshot, computed without
  -- caches or state, and leaves such caches.
  pub evaluate-rule_matches :
      (conditions : Value) (current : Option String) (required : Value) (s : State W)
      → Coherent snap stats s.evaluator
      → ((evaluate rt api torrent conditions current required s).0
          ≡ rule_matches rt snap stats torrent conditions current required)
        × Coherent snap stats (evaluate rt api torrent conditions current required s).1.evaluator
  unfolding evaluate rule_matches
  evaluate-rule_matches conditions current required s h =
      elim (Bool-cases (context_allows current required)) [
        | inl e ↦
            let sim = sim_conditions conditions in
            let m = evaluate_conditions rt api torrent conditions s in
            let done =
              caught-or_false m (conditions_hold rt snap stats torrent conditions)
                (sim.result s h) in
            rw e (done.0, rw done.1 (sim.after s h))
        | inr e ↦ rw e (refl, h)
      ]
