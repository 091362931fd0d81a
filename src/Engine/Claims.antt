-- ===== src/Engine/Claims.antt =====
-- The torrents that RulesEngine.run (src/qbt_rules/engine.py) passes over: those that a stop_on_match rule has
-- claimed, and the deleted ones.
use qbt_rules.Prelude.{
  String, ◌≡◌, refl, sym, subst, ◌∙◌, Bool, true, false, ◌||◌, Option, List, [], ◌∷◌, not, str_in,
  if◌then◌else◌,
}
use qbt_rules.Value.{Fields, get, get_or_null, truthy}
use qbt_rules.Conditions.{type_error, Result, ok, err, Runtime}
use qbt_rules.Conditions.Lookup.{hash_of}
use qbt_rules.Api.{Api}
use qbt_rules.Actions.{Services}
use qbt_rules.Engine.{Engine, proceed}
use qbt_rules.Engine.Run.{
  flag, has_label, start_rule, process_torrent, process_torrents, process_rule, process_rules,
}

-- A torrent that a rule passes over.
abbrev pub is_passed : List String → Fields → Bool
is_passed claimed torrent =
    str_in (hash_of torrent) claimed || truthy (get_or_null "_deleted" torrent)

-- All of them are.
pub data AllPassed (claimed : List String) : List Fields → Type 0 where
  none_left : AllPassed claimed []
  passed :
      {torrent : Fields} {torrents : List Fields}
      → is_passed claimed torrent ≡ true
      → AllPassed claimed torrents
      → AllPassed claimed (torrent ∷ torrents)

abbrev pub SameIfOk : List Fields → Result (List Fields) → Type 0
SameIfOk torrents (ok ts) = ts ≡ torrents
SameIfOk torrents (err e) = Unit {0}

-- What rules leave behind that look at no torrent: executor, caches, world and claims as before.
pub record Idled {W : Type 0} (torrents : List Fields) (g : Engine W)
    (m : Result (List Fields) × Engine W) : Type 0 where
  pub executor : m.1.executor ≡ g.executor
  pub processed : m.1.processed ≡ g.processed
  pub unchanged : SameIfOk torrents (m.0)

SameIfOk-trans :
    (torrents ts : List Fields) (r : Result (List Fields))
    → ts ≡ torrents
    → SameIfOk ts r
    → SameIfOk torrents r
SameIfOk-trans torrents ts (ok us) e same = same ∙ e
SameIfOk-trans torrents ts (err _) e same = tt

Idled-trans :
    {W : Type 0} (torrents ts : List Fields) (g g' : Engine W) (m : Result (List Fields) × Engine W)
    → Idled torrents g (ok ts, g')
    → Idled ts g' m
    → Idled torrents g m
Idled-trans torrents ts g g' m i k = record {
  executor = k.executor ∙ i.executor;
  processed = k.processed ∙ i.processed;
  unchanged = SameIfOk-trans torrents ts (m.0) i.unchanged k.unchanged;
}

module _ {W : Type 0} (rt : Runtime) (api : Api W) (services : Services W) (dry_run : Bool) where
  process_torrent-passed :
      (context : Option String) (rule torrent : Fields) (g : Engine W)
      → is_passed g.processed torrent ≡ true
      → process_torrent rt api services dry_run context rule torrent g ≡ (ok torrent, g)
  unfolding process_torrent
  process_torrent-passed context rule torrent g e = rw (process_torrent, e)

  process_torrents-passed :
      (context : Option String) (rule : Fields) (torrents : List Fields) (g : Engine W)
      → AllPassed g.processed torrents
      → process_torrents rt api services dry_run context rule torrents g ≡ (ok torrents, g)
  unfolding process_torrents proceed
  process_torrents-passed context rule [] g none_left = refl
  process_torrents-passed context rule (t ∷ ts) g (passed e rest) = rw (
    process_torrents,
    process_torrent-passed context rule t g e,
    process_torrents-passed context rule ts g rest,
  )

  Idled-if :
      (torrents : List Fields) (g : Engine W) (b : Bool) (l r : Result (List Fields) × Engine W)
      → Idled torrents g l
      → Idled torrents g r
      → Idled torrents g (if b then l else r)
  Idled-if torrents g true l r il ir = il
  Idled-if torrents g false l r il ir = ir

  process_rule-passed :
      (context : Option String) (rule : Fields) (torrents : List Fields) (g : Engine W)
      → AllPassed g.processed torrents
      → Idled torrents g (process_rule rt api services dry_run context rule torrents g)
  unfolding process_rule
  process_rule-passed context rule torrents g all =
      let walk =
        process_torrents rt api services dry_run context rule torrents (start_rule rule g) in
      Idled-if torrents g (not (has_label (get "meta" rule))) (err type_error, g)
        (if not (flag "enabled" true rule) then (ok torrents, g) else walk)
        (record { executor = refl; processed = refl; unchanged = tt })
        (Idled-if torrents g (not (flag "enabled" true rule)) (ok torrents, g) walk
          (record { executor = refl; processed = refl; unchanged = refl })
          (rw (process_torrents-passed context rule torrents (start_rule rule g) all)
            (record { executor = refl; processed = refl; unchanged = refl })))

  proceed-Idled :
      (torrents : List Fields) (g : Engine W)
      (f : List Fields → Engine W → Result (List Fields) × Engine W)
      (m : Result (List Fields) × Engine W)
      → AllPassed g.processed torrents
      → Idled torrents g m
      → ((ts : List Fields) (g' : Engine W) → AllPassed g'.processed ts → Idled ts g' (f ts g'))
      → Idled torrents g (proceed f m)
  unfolding proceed
  proceed-Idled torrents g f (err e, g') all i rest = record {
    executor = i.executor;
    processed = i.processed;
    unchanged = tt;
  }
  proceed-Idled torrents g f (ok ts, g') all i rest =
      let all' =
        subst (λ c. AllPassed c ts) (sym i.processed)
          (subst (λ ts'. AllPassed g.processed ts') (sym i.unchanged) all) in
      Idled-trans torrents ts g g' (f ts g') i (rest ts g' all')

  -- If every torrent is claimed or deleted, processing any rules leaves the executor, with its
  -- caches, world and commands, and the claims as they were, and returns the torrents unchanged
  -- unless it raises.
  pub process_rules_passed :
      (context : Option String) (rules torrents : List Fields) (g : Engine W)
      → AllPassed g.processed torrents
      → Idled torrents g (process_rules rt api services dry_run context rules torrents g)
  unfolding process_rules
  process_rules_passed context [] torrents g all = record {
    executor = refl;
    processed = refl;
    unchanged = refl;
  }
  process_rules_passed context (r ∷ rs) torrents g all =
      proceed-Idled torrents g (λ ts. process_rules rt api services dry_run context rs ts)
        (process_rule rt api services dry_run context r torrents g) all
        (process_rule-passed context r torrents g all)
        (λ ts g' all'. process_rules_passed context rs ts g' all')
