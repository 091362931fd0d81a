-- ===== src/Conditions/State.antt =====
-- The state of ConditionEvaluator (src/qbt_rules/engine.py): its caches and the stats.* snapshot, with the
-- outside world, and actions on it. What an action wrote before it raised stays written.
use qbt_rules.Prelude.{String, Option, none, some, List, [], ◌∷◌, str_eq, if◌then◌else◌}
use qbt_rules.Prelude.Int.{ℤ, pos, ◌+ℤ◌}
use qbt_rules.Value.{Fields}
use qbt_rules.Conditions.{Exc, Result, ok, err}

abbrev pub Cache : Type 0 → Type 0
Cache V = List (String × V)

unfoldable pub cached {ℓ} : {V : Type ℓ} → String → List (String × V) → Option V
cached k [] = none
cached k ((j, v) ∷ c) = let rest = cached k c in if str_eq j k then some v else rest

-- collections.Counter: a missing key counts 0.
abbrev pub Counter : Type 0
Counter = List (String × ℤ)

unfoldable pub count_of : String → Counter → ℤ
count_of k [] = pos 0
count_of k ((j, n) ∷ c) = if str_eq j k then n else count_of k c

-- `counter[k] += n`
unfoldable pub add_count : String → ℤ → Counter → Counter
add_count k n [] = (k, n) ∷ []
add_count k n ((j, m) ∷ c) = if str_eq j k then (j, m +ℤ n) ∷ c else (j, m) ∷ add_count k n c

pub record Stats : Type 0 where
  pub state : Counter
  pub category : Counter
  pub tag : Counter
  pub total : ℤ
  pub dlspeed : ℤ
  pub upspeed : ℤ
  pub seeds : ℤ
  pub leechs : ℤ

pub record Evaluator : Type 0 where
  pub trackers_cache : Cache (List Fields)
  pub files_cache : Cache (List Fields)
  pub peers_cache : Cache (List Fields)
  pub webseeds_cache : Cache (List Fields)
  pub properties_cache : Cache Fields
  pub transfer_info : Option Fields
  pub app_preferences : Option Fields
  pub stats : Stats

abbrev pub no_stats : Stats
no_stats = record {
  state = [];
  category = [];
  tag = [];
  total = pos 0;
  dlspeed = pos 0;
  upspeed = pos 0;
  seeds = pos 0;
  leechs = pos 0;
}

-- `ConditionEvaluator.__init__`
unfoldable pub new_evaluator : Evaluator
new_evaluator = record {
  trackers_cache = [];
  files_cache = [];
  peers_cache = [];
  webseeds_cache = [];
  properties_cache = [];
  transfer_info = none;
  app_preferences = none;
  stats = no_stats;
}

-- `clear_caches`, which keeps the stats
unfoldable pub clear_caches : Evaluator → Evaluator
clear_caches e = record {
  trackers_cache = [];
  files_cache = [];
  peers_cache = [];
  webseeds_cache = [];
  properties_cache = [];
  transfer_info = none;
  app_preferences = none;
  stats = e.stats;
}

pub record State (W : Type 0) : Type 0 where
  pub evaluator : Evaluator
  pub world : W

abbrev pub Action : Type 0 → Type 0 → Type 0
Action W A = State W → Result A × State W

module _ {W A : Type 0} where
  abbrev pub pure : A → Action W A
  pure a s = (ok a, s)

  abbrev pub raise : Exc → Action W A
  raise e s = (err e, s)

  abbrev pub lift : Result A → Action W A
  lift r s = (r, s)

module _ {W A B : Type 0} where
  abbrev pub continue : Result A → (A → Action W B) → Action W B
  continue (ok a) f s = f a s
  continue (err e) f s = (err e, s)

  infixl 5 ◌>>=◌
  abbrev pub ◌>>=◌ : Action W A → (A → Action W B) → Action W B
  ◌>>=◌ m f s = let (r, s') = m s in continue r f s'
