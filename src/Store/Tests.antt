-- ===== src/Store/Tests.antt =====
-- Saves of a rules file (src/qbt_rules/config_store.py and src/qbt_rules/api_rules.py).
use qbt_rules.Prelude.{
  String, ◌≡◌, refl, true, Option, none, some, [], ◌∷◌, str_eq, not, ◌==◌, if◌then◌else◌, arith,
}
use qbt_rules.Value.{Value, dict, end, field, str}
use qbt_rules.Store.{put_version, prune, Disk, Moment, swapped, failed, torn, made, stored}
use qbt_rules.Store.Editor.{
  saved, invalid, internal_error, precondition_failed, strip_etag, text_valid, SaveRequest, save,
  save_all,
}
use qbt_rules.Store.Saves.{IsSound, save_all-IsSound}
use qbt_rules.Store.History.{holding, Replaces, save-Replaces}
use qbt_rules.Examples.{runtime}

abbrev parse : String → Option Value
parse s =
    if str_eq s "{}"
    then some (dict end)
    else if str_eq s "version: 1"
    then some (dict (field "version" (str "1") end))
    else none

abbrev etag : String → String
etag s = s

abbrev moment : Moment
moment = record {
  file_access = true;
  parent_access = true;
  history_access = true;
  replaced = swapped;
  created = made stored;
  kept = stored;
  unlinks = λ id. true;
  now = 7;
}

abbrev base : String
base = "{}"

abbrev disk : Disk
disk = holding etag 1 "{}" ((3, "old") ∷ (2, "older") ∷ [])

abbrev send : String → String → SaveRequest
send text tag = record { content = text; header = some tag; body = none }

saves : save parse runtime etag 2 true moment (send "version: 1" "W/\"{}\"") disk ≡ (
  saved true (record { text = "version: 1"; etag = "version: 1" }),
  record { file = some "version: 1"; versions = (7, "{}") ∷ (3, "old") ∷ [] },
)
unfolding save put_version prune
saves = refl

refuses_stale :
    save parse runtime etag 2 true moment (send "version: 1" "stale") disk
    ≡ (precondition_failed (record { text = "{}"; etag = "{}" }), disk)
unfolding save put_version prune
refuses_stale = refl

refuses_invalid : save parse runtime etag 2 true moment (send "[" "{}") disk ≡ (invalid, disk)
unfolding save put_version prune
refuses_invalid = refl

-- Where the new file cannot be put in place, the old one stays, and is in the history too.
fails :
    save parse runtime etag 2 true
      (record moment { replaced = failed })
      (send "version: 1" "{}")
      disk
    ≡ (internal_error, record { file = some "{}"; versions = (7, "{}") ∷ (3, "old") ∷ [] })
unfolding save put_version prune
fails = refl

-- Where an old version cannot be unlinked, it stays in the history.
keeps_stuck :
    save parse runtime etag 2 true
      (record moment { unlinks = λ id. not (id == 2) })
      (send "version: 1" "{}")
      disk
    ≡ (
      saved true (record { text = "version: 1"; etag = "version: 1" }),
      record { file = some "version: 1"; versions = (7, "{}") ∷ (3, "old") ∷ (2, "older") ∷ [] },
    )
unfolding save put_version prune
keeps_stuck = refl

-- Where the file is rewritten in place and that stops halfway, a part is left.
tears :
    (save parse runtime etag 2 true
      (record moment { replaced = torn "versi" })
      (send "version: 1" "{}")
      disk).0
    ≡ internal_error
unfolding save put_version prune
tears = refl

save-Replaces_example :
    (text_valid parse runtime "version: 1" ≡ true)
    × ((base ≡ base)
        × Replaces etag 1 moment "version: 1" "{}"
            ((3, "old") ∷ (2, "older") ∷ [])
            ((save parse runtime etag 2 true moment (send "version: 1" "{}") disk).1))
unfolding strip_etag save
save-Replaces_example =
    save-Replaces etag 1 parse runtime true moment (send "version: 1" "{}") base base
      ((3, "old") ∷ (2, "older") ∷ []) (λ a b e. e) (omega arith, (omega arith, tt)) refl refl

save_all-IsSound_example : IsSound parse runtime etag 2 (
    save_all parse runtime etag 2 true
      ((moment, send "[" "{}") ∷ (moment, send "version: 1" "{}") ∷ [])
      disk)
unfolding text_valid
save_all-IsSound_example =
    save_all-IsSound parse runtime etag 2 true
      ((moment, send "[" "{}") ∷ (moment, send "version: 1" "{}") ∷ []) disk
      ((refl, refl), ((refl, refl), tt)) refl
