-- ===== src/Engine/Refresh.antt =====
-- The snapshot of stats.* at the start of RulesEngine.run (src/qbt_rules/engine.py), and how it follows a
-- torrent that is fetched again after an action.
use qbt_rules.Prelude.{
  String, Bool, true, false, Option, none, some, List, [], ◌∷◌, keep, length, not, str_eq, str_in,
  if◌then◌else◌,
}
use qbt_rules.Prelude.Int.{ℤ, pos, negsuc, ◌+ℤ◌}
use qbt_rules.Value.{Value, bool, num, str, Fields, field, get, put, update, truncate_ℤ}
use qbt_rules.Conditions.State.{Counter, add_count, Stats}
use qbt_rules.Conditions.Lookup.{parse_tags}

-- `torrent.get("state")`: a text, or `none` for None
abbrev pub text_or_none : Option Value → Option String
text_or_none (some (str s)) = some s
text_or_none _ = none

abbrev pub state_of : Fields → Option String
state_of torrent = text_or_none (get "state" torrent)

-- A key None is counted too, and is no field of stats.*.
abbrev pub add_key : Option String → ℤ → Counter → Counter
add_key none n c = c
add_key (some k) n c = add_count k n c

abbrev pub add_keys : List String → ℤ → Counter → Counter
add_keys [] n c = c
add_keys (k ∷ ks) n c = add_keys ks n (add_count k n c)

-- `torrent.get("category")` where it is truthy
abbrev pub category_of : Fields → Option String
category_of torrent = elim (text_or_none (get "category" torrent)) [
  | none ↦ none
  | some c ↦ if str_eq c "" then none else some c
]

abbrev pub int_of : Option Value → ℤ
int_of (some (num n)) = truncate_ℤ n.mantissa n.scale
int_of _ = pos 0

unfoldable pub count_states : List Fields → Counter → Counter
count_states [] c = c
count_states (t ∷ ts) c = count_states ts (add_key (state_of t) (pos 1) c)

unfoldable pub count_categories : List Fields → Counter → Counter
count_categories [] c = c
count_categories (t ∷ ts) c = count_categories ts (add_key (category_of t) (pos 1) c)

unfoldable pub count_tags : List Fields → Counter → Counter
count_tags [] c = c
count_tags (t ∷ ts) c = count_tags ts (add_keys (parse_tags t) (pos 1) c)

-- `sum(t.get(key, 0) for t in all_torrents)`
unfoldable pub sum_field : String → List Fields → ℤ
sum_field key [] = pos 0
sum_field key (t ∷ ts) = int_of (get key t) +ℤ sum_field key ts

unfoldable pub snapshot_stats : List Fields → Stats
unfolding count_states count_categories count_tags sum_field
snapshot_stats all_torrents = record {
  state = count_states all_torrents [];
  category = count_categories all_torrents [];
  tag = count_tags all_torrents [];
  total = pos (length all_torrents);
  dlspeed = sum_field "dlspeed" all_torrents;
  upspeed = sum_field "upspeed" all_torrents;
  seeds = sum_field "num_seeds" all_torrents;
  leechs = sum_field "num_leechs" all_torrents;
}

-- `set(parse_tags(torrent))`
unfoldable pub distinct : List String → List String
distinct [] = []
distinct (k ∷ ks) = let rest = distinct ks in if str_in k ks then rest else k ∷ rest

unfoldable pub tag_set : Fields → List String
unfolding distinct parse_tags
tag_set torrent = distinct (parse_tags torrent)

-- `a - b` of two sets
unfoldable pub set_minus : List String → List String → List String
set_minus a b = keep (λ k. not (str_in k b)) a

abbrev pub same_key : Option String → Option String → Bool
same_key none none = true
same_key (some a) (some b) = str_eq a b
same_key _ _ = false

-- `if post_state != pre_state:` and the two increments
unfoldable pub move_state : Option String → Option String → Counter → Counter
move_state pre post c =
    if same_key post pre then c else add_key post (pos 1) (add_key pre (negsuc 0) c)

unfoldable pub move_tags : List String → List String → Counter → Counter
unfolding set_minus
move_tags pre post c =
    add_keys (set_minus pre post) (negsuc 0) (add_keys (set_minus post pre) (pos 1) c)

-- The torrent was fetched again: its dictionary is updated, and the counts follow.
unfoldable pub follow_update : Option String → List String → Fields → Stats → Stats
unfolding move_state move_tags tag_set
follow_update pre_state pre_tags torrent st = record st {
  state = move_state pre_state (state_of torrent) st.state;
  tag = move_tags pre_tags (tag_set torrent) st.tag;
}

-- The torrent is gone: its state, its tags and its category are counted out.
unfoldable pub follow_delete : Option String → List String → Fields → Stats → Stats
follow_delete pre_state pre_tags torrent st = record st {
  state = add_key pre_state (negsuc 0) st.state;
  total = st.total +ℤ negsuc 0;
  tag = add_keys pre_tags (negsuc 0) st.tag;
  category = add_key (category_of torrent) (negsuc 0) st.category;
}

-- What `get_torrent` gave: an empty dictionary counts as none.
abbrev pub fetched : Option Fields → Option Fields
fetched (some (field k v fs)) = some (field k v fs)
fetched _ = none

abbrev pub refreshed_torrent : Fields → Option Fields → Fields
refreshed_torrent torrent (some updated) = update torrent updated
refreshed_torrent torrent none = put "_deleted" (bool true) torrent

abbrev pub refreshed_stats : Option String → List String → Fields → Option Fields → Stats → Stats
refreshed_stats pre_state pre_tags torrent (some updated) st =
    follow_update pre_state pre_tags (update torrent updated) st
refreshed_stats pre_state pre_tags torrent none st =
    follow_delete pre_state pre_tags (put "_deleted" (bool true) torrent) st
