-- ===== src/Engine/Following.antt =====
-- The counts of stats.state while RulesEngine.run (src/qbt_rules/engine.py) refreshes a torrent.
use qbt_rules.Prelude.{
  ℕ, suc, ◌+◌, String, ◌≡◌, refl, sym, ap, ◌∙◌, Bool, true, false, Option, none, some, List, [],
  ◌∷◌, ◌++◌, str_eq, if◌then◌else◌, arith, eq_iff, Bool-cases, inl, inr, count_if, count_if_append,
}
use qbt_rules.Prelude.Int.{ℤ, pos, negsuc, ◌+ℤ◌}
use qbt_rules.Value.{Fields}
use qbt_rules.Conditions.State.{Stats, Counter, count_of, add_count}
use qbt_rules.Engine.Refresh.{
  state_of, add_key, count_states, same_key, move_state, snapshot_stats, follow_update,
  follow_delete,
}

add_zero : (a : ℤ) → a +ℤ pos 0 ≡ a
add_zero (pos n) = ground arith
add_zero (negsuc n) = ground arith

add_swap : (a b c : ℤ) → a +ℤ b +ℤ c ≡ a +ℤ c +ℤ b
add_swap (pos a) (pos b) (pos c) = ground arith
add_swap (pos a) (pos b) (negsuc c) = ground arith
add_swap (pos a) (negsuc b) (pos c) = ground arith
add_swap (pos a) (negsuc b) (negsuc c) = ground arith
add_swap (negsuc a) (pos b) (pos c) = ground arith
add_swap (negsuc a) (pos b) (negsuc c) = ground arith
add_swap (negsuc a) (negsuc b) (pos c) = ground arith
add_swap (negsuc a) (negsuc b) (negsuc c) = ground arith

add_back : (a : ℤ) → a +ℤ pos 1 +ℤ negsuc 0 ≡ a
add_back (pos n) = ground arith
add_back (negsuc n) = ground arith

zero_add : (a : ℤ) → pos 0 +ℤ a ≡ a
zero_add (pos n) = ground arith
zero_add (negsuc n) = ground arith

count_of-add_count :
    (k j : String) (n : ℤ) (c : Counter)
    → count_of k (add_count j n c) ≡ (if str_eq j k then count_of k c +ℤ n else count_of k c)
unfolding count_of add_count
count_of-add_count k j n [] = ground (arith, zero_add n)
count_of-add_count k j n ((i, m) ∷ c) =
    ground (arith, count_of-add_count k j n c, eq_iff i j, eq_iff i k, eq_iff j k)

abbrev pub is_key : String → Option String → Bool
is_key k none = false
is_key k (some j) = str_eq j k

-- What an increment by `n` of the key `o` adds to the count of `k`.
abbrev pub added : Bool → ℤ → ℤ
added true n = n
added false n = pos 0

count_of-add_key :
    (k : String) (o : Option String) (n : ℤ) (c : Counter)
    → count_of k (add_key o n c) ≡ count_of k c +ℤ added (is_key k o) n
count_of-add_key k none n c = sym (add_zero (count_of k c))
count_of-add_key k (some j) n c = count_of-add_count k j n c ∙ chosen (str_eq j k) (count_of k c)
  where
    chosen : (b : Bool) (m : ℤ) → (if b then m +ℤ n else m) ≡ m +ℤ added b n
    chosen true m = refl
    chosen false m = sym (add_zero m)

same_key-eq : (a b : Option String) → same_key a b ≡ true → a ≡ b
same_key-eq none none h = refl
same_key-eq none (some b) h = ground (arith, h)
same_key-eq (some a) none h = ground (arith, h)
same_key-eq (some a) (some b) h = ap (λ s. some s) ((eq_iff a b).0 h)

-- Both increments, or neither where the state stays the same.
count_of-move_state :
    (k : String) (pre post : Option String) (c : Counter)
    → count_of k (move_state pre post c)
      ≡ count_of k c +ℤ added (is_key k pre) (negsuc 0) +ℤ added (is_key k post) (pos 1)
unfolding move_state
count_of-move_state k pre post c = elim (Bool-cases (same_key post pre)) [
  | inl e ↦ rw e (rw (same_key-eq post pre e) (sym (taken_back (is_key k pre) (count_of k c))))
  | inr e ↦ rw e (
      count_of-add_key k post (pos 1) (add_key pre (negsuc 0) c)
      ∙ ap (λ m. m +ℤ added (is_key k post) (pos 1)) (count_of-add_key k pre (negsuc 0) c))
]
  where
    taken_back : (b : Bool) (m : ℤ) → m +ℤ added b (negsuc 0) +ℤ added b (pos 1) ≡ m
    taken_back true m = add_swap m (negsuc 0) (pos 1) ∙ add_back m
    taken_back false m = add_zero (m +ℤ pos 0) ∙ add_zero m

abbrev pub in_state : String → Fields → Bool
in_state k t = is_key k (state_of t)

abbrev number : Bool → ℕ
number true = 1
number false = 0

count_if-between :
    (p : Fields → Bool) (xs ys : List Fields) (t : Fields)
    → count_if p (xs ++ t ∷ ys) ≡ count_if p xs + count_if p ys + number (p t)
count_if-between p xs ys t = ground (arith, count_if_append p xs (t ∷ ys))

count_if-without :
    (p : Fields → Bool) (xs ys : List Fields)
    → count_if p (xs ++ ys) ≡ count_if p xs + count_if p ys
count_if-without p xs ys = count_if_append p xs ys

replaced :
    (p q : Bool) (n : ℕ)
    → pos (n + number p) +ℤ added p (negsuc 0) +ℤ added q (pos 1) ≡ pos (n + number q)
replaced true true n = ground arith
replaced true false n = ground arith
replaced false true n = ground arith
replaced false false n = ground arith

removed : (p : Bool) (n : ℕ) → pos (n + number p) +ℤ added p (negsuc 0) ≡ pos n
removed true n = ground arith
removed false n = ground arith

count_of-count_states :
    (k : String) (ts : List Fields) (c : Counter)
    → count_of k (count_states ts c) ≡ count_of k c +ℤ pos (count_if (in_state k) ts)
unfolding count_states
count_of-count_states k [] c = sym (add_zero (count_of k c))
count_of-count_states k (t ∷ ts) c =
    count_of-count_states k ts (add_key (state_of t) (pos 1) c)
    ∙ ap (λ m. m +ℤ pos (count_if (in_state k) ts)) (count_of-add_key k (state_of t) (pos 1) c)
    ∙ one_more (in_state k t) (count_of k c) (count_if (in_state k) ts)
  where
    one_more :
        (b : Bool) (m : ℤ) (n : ℕ)
        → m +ℤ added b (pos 1) +ℤ pos n ≡ m +ℤ pos (if b then suc n else n)
    one_more true (pos m) n = ground arith
    one_more true (negsuc m) n = ground arith
    one_more false m n = ap (λ x. x +ℤ pos n) (add_zero m)

-- The count of a state in the snapshot at the start of a run is the number of torrents in that
-- state.
pub snapshot_stats_state :
    (k : String) (all_torrents : List Fields)
    → count_of k (snapshot_stats all_torrents).state ≡ pos (count_if (in_state k) all_torrents)
unfolding snapshot_stats count_of
snapshot_stats_state k all_torrents =
    count_of-count_states k all_torrents [] ∙ zero_add (pos (count_if (in_state k) all_torrents))

-- If the count of a state in stats.state is the number of torrents in that state, then after one
-- of the torrents is refreshed, to a state of its own or another one, the count is again that
-- number.
pub follow_update_state :
    (k : String) (before after : List Fields) (t t' : Fields) (tags : List String) (st : Stats)
    → count_of k st.state ≡ pos (count_if (in_state k) (before ++ t ∷ after))
    → count_of k (follow_update (state_of t) tags t' st).state
      ≡ pos (count_if (in_state k) (before ++ t' ∷ after))
unfolding follow_update
follow_update_state k before after t t' tags st e =
    let n = count_if (in_state k) before + count_if (in_state k) after in
    count_of-move_state k (state_of t) (state_of t') st.state
    ∙ ap (λ m. m +ℤ added (in_state k t) (negsuc 0) +ℤ added (in_state k t') (pos 1))
        (e ∙ ap (λ x. pos x) (count_if-between (in_state k) before after t))
    ∙ replaced (in_state k t) (in_state k t') n
    ∙ sym (ap (λ x. pos x) (count_if-between (in_state k) before after t'))

-- If the count of a state in stats.state is the number of torrents in that state, then after one
-- of the torrents is counted out as deleted the count is the number for the other torrents.
pub follow_delete_state :
    (k : String) (before after : List Fields) (t t' : Fields) (tags : List String) (st : Stats)
    → count_of k st.state ≡ pos (count_if (in_state k) (before ++ t ∷ after))
    → count_of k (follow_delete (state_of t) tags t' st).state
      ≡ pos (count_if (in_state k) (before ++ after))
unfolding follow_delete
follow_delete_state k before after t t' tags st e =
    count_of-add_key k (state_of t) (negsuc 0) st.state
    ∙ ap (λ m. m +ℤ added (in_state k t) (negsuc 0))
        (e ∙ ap (λ x. pos x) (count_if-between (in_state k) before after t))
    ∙ removed (in_state k t) (count_if (in_state k) before + count_if (in_state k) after)
    ∙ sym (ap (λ x. pos x) (count_if-without (in_state k) before after))
