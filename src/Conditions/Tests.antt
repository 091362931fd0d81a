-- ===== src/Conditions/Tests.antt =====
-- Runs of the condition evaluator (src/qbt_rules/engine.py) on a small server.
use qbt_rules.Prelude.{◌≡◌, refl, true, false, none, some}
use qbt_rules.Value.{Value, null, str, list, nil, cons}
use qbt_rules.Utils.{split_dot}
use qbt_rules.Conditions.{Result, ok, err}
use qbt_rules.Conditions.State.{no_stats}
use qbt_rules.Conditions.Operators.{apply_operator}
use qbt_rules.Conditions.Negation.{containing, negative_op, positive_op, apply_operator-negation}
use qbt_rules.Conditions.Operators.{negate}
use qbt_rules.Conditions.Evaluate.{evaluate}
use qbt_rules.Conditions.Snapshot.{rule_matches}
use qbt_rules.Conditions.Caching.{Coherent}
use qbt_rules.Conditions.Transparency.{evaluate-rule_matches}
use qbt_rules.Conditions.Missing.{none_of, evaluate_missing_files}
use qbt_rules.Examples.{
  runtime, server, snapshot, server-Steady, stopped_torrent, first_state, new_evaluator-Coherent,
  is_state,
}

abbrev two_tags : Value
two_tags = list (cons (str "private") (cons (str "iptorrent.com") nil))

-- One of the two tags contains the text, so `not_contains` fails on the list.
not_contains_private : apply_operator runtime two_tags "not_contains" (str "private") ≡ ok false
unfolding apply_operator qbt_rules.Conditions.Operators.is_negative
    qbt_rules.Conditions.Operators.scalar_operator qbt_rules.Utils.contains
not_contains_private = refl

stopped_matches :
    (evaluate runtime server stopped_torrent (is_state "stoppedUP") none null first_state).0 ≡ true
unfolding evaluate qbt_rules.Conditions.Evaluate.group_all
stopped_matches = refl

apply_operator-negation_example :
    apply_operator runtime two_tags (negative_op containing) (str "private")
    ≡ negate (apply_operator runtime two_tags (positive_op containing) (str "private"))
apply_operator-negation_example =
    apply_operator-negation runtime containing two_tags (str "private")

evaluate-rule_matches_example :
    ((evaluate runtime server stopped_torrent (is_state "stoppedUP") none null first_state).0
      ≡ rule_matches runtime snapshot no_stats stopped_torrent (is_state "stoppedUP") none null)
    × Coherent snapshot no_stats
        (evaluate runtime server stopped_torrent
          (is_state "stoppedUP")
          none
          null
          first_state).1.evaluator
evaluate-rule_matches_example =
    evaluate-rule_matches runtime snapshot no_stats server server-Steady stopped_torrent
      (is_state "stoppedUP") none null first_state new_evaluator-Coherent

name_field : split_dot "files.name" ≡ some ("files", "name")
unfolding split_dot
name_field = refl

evaluate_missing_files_example :
    (evaluate runtime server stopped_torrent
      (none_of "files.name" "matches" (str "mkv") nil)
      none
      null
      first_state).0
    ≡ false
evaluate_missing_files_example =
    evaluate_missing_files runtime server snapshot no_stats server-Steady stopped_torrent
      "files.name" "name" "matches" (str "mkv") nil none null first_state new_evaluator-Coherent
      name_field refl
