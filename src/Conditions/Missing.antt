-- ===== src/Conditions/Missing.antt =====
-- A rule about files whose list is not loaded yet (`_get_field_value` and `evaluate` of
-- src/qbt_rules/engine.py).
use qbt_rules.Prelude.{String, ◌≡◌, ◌∙◌, false, Option, some, [], Bool-cases, inl, inr}
use qbt_rules.Value.{Value, str, list, dict, Items, cons, Fields, end, field, get}
use qbt_rules.Utils.{split_dot}
use qbt_rules.Conditions.{data_not_ready, ok, err, Runtime}
use qbt_rules.Conditions.State.{Stats, State}
use qbt_rules.Conditions.Lookup.{hash_of}
use qbt_rules.Conditions.Evaluate.{evaluate, context_allows}
use qbt_rules.Conditions.Snapshot.{
  Snapshot, read_endpoint, read_field, conditions_hold, groups_hold, leaf_holds, holds,
  rule_matches,
}
use qbt_rules.Conditions.Caching.{Steady, Coherent}
use qbt_rules.Conditions.Transparency.{evaluate-rule_matches}
use qbt_rules.Api.{Api}

-- `none: [{field: path, operator: op, value: v}, ...]`
abbrev pub none_of : String → String → Value → Items → Value
none_of path op v others = dict (
    field "none"
      (list (
        cons (dict (field "field" (str path) (field "operator" (str op) (field "value" v end))))
          others))
      end)

module _ (rt : Runtime) (snap : Snapshot) (stats : Stats) (torrent : Fields) where
  read_field-missing :
      (path name : String)
      → split_dot path ≡ some ("files", name)
      → snap.files (hash_of torrent) ≡ ok []
      → read_field rt snap stats torrent path ≡ err (data_not_ready path (hash_of torrent))
  unfolding read_field read_endpoint
  read_field-missing path name e empty = rw (read_field, e, read_endpoint, empty)

  conditions_hold-missing :
      (path name op : String) (v : Value) (others : Items)
      → split_dot path ≡ some ("files", name)
      → snap.files (hash_of torrent) ≡ ok []
      → conditions_hold rt snap stats torrent (none_of path op v others)
        ≡ err (data_not_ready path (hash_of torrent))
  unfolding conditions_hold groups_hold leaf_holds holds get
  conditions_hold-missing path name op v others e empty = rw (read_field-missing path name e empty)

  rule_matches-missing :
      (path name op : String) (v : Value) (others : Items) (current : Option String)
      (required : Value)
      → split_dot path ≡ some ("files", name)
      → snap.files (hash_of torrent) ≡ ok []
      → rule_matches rt snap stats torrent (none_of path op v others) current required ≡ false
  unfolding rule_matches
  rule_matches-missing path name op v others current required e empty =
      elim (Bool-cases (context_allows current required)) [
        | inl c ↦ rw (rule_matches, c, conditions_hold-missing path name op v others e empty)
        | inr c ↦ rw (rule_matches, c)
      ]

module _ {W : Type 0} (rt : Runtime) (api : Api W) (snap : Snapshot) (stats : Stats)
    (steady : Steady api snap) (torrent : Fields) where
  -- On a server that answers as a fixed snapshot, with an empty file list for a torrent, and from
  -- caches that agree, a rule of a none group whose first condition reads a field of files.* does
  -- not match the torrent.
  pub evaluate_missing_files :
      (path name op : String) (v : Value) (others : Items) (current : Option String)
      (required : Value) (s : State W)
      → Coherent snap stats s.evaluator
      → split_dot path ≡ some ("files", name)
      → snap.files (hash_of torrent) ≡ ok []
      → (evaluate rt api torrent (none_of path op v others) current required s).0 ≡ false
  evaluate_missing_files path name op v others current required s h e empty =
      (evaluate-rule_matches rt snap stats api steady torrent (none_of path op v others) current
        required s h).0
      ∙ rule_matches-missing rt snap stats torrent path name op v others current required e empty
