-- ===== src/Conditions/Caching.antt =====
-- The caches of ConditionEvaluator (src/qbt_rules/engine.py) do not show: while the server answers each read
-- the same way, an evaluation gives what the conditions mean on the server's snapshot.
use qbt_rules.Prelude.{
  String, ◌≡◌, refl, sym, ap, Option, none, some, List, ◌∷◌, str_eq, eq_iff, Bool-cases, inl, inr,
  arith,
}
use qbt_rules.Value.{Fields}
use qbt_rules.Conditions.{Result, ok, err}
use qbt_rules.Conditions.State.{
  Cache, cached, Stats, Evaluator, State, Action, lift, ◌>>=◌, continue,
}
use qbt_rules.Conditions.Lookup.{
  Slot, store, through, trackers_slot, files_slot, peers_slot, webseeds_slot, properties_slot,
  transfer_slot, app_slot,
}
use qbt_rules.Conditions.Snapshot.{Snapshot, bind}
use qbt_rules.Api.{Api}

-- Every cached answer is the server's.
abbrev pub Agrees {ℓ} : {V : Type ℓ} → (String → Result V) → List (String × V) → Type ℓ
Agrees {V} f c = (k : String) (v : V) → cached k c ≡ some v → f k ≡ ok v

Agrees-cons :
    {V : Type 0} (f : String → Result V) (c : Cache V) (h : String) (v : V)
    → Agrees f c
    → f h ≡ ok v
    → Agrees f ((h, v) ∷ c)
unfolding cached
Agrees-cons f c h v agrees e k x found = elim (Bool-cases (str_eq h k)) [
  | inl same ↦ let eq : h ≡ k = (eq_iff h k).0 same in ground (arith, ap f eq, e, found, same)
  | inr other ↦ agrees k x (ground (arith, found, other))
]

-- The server answers every read as the snapshot does, whatever happened before.
pub record Steady {W : Type 0} (api : Api W) (snap : Snapshot) : Type 0 where
  pub trackers : (h : String) (w : W) → (api.get_trackers h w).0 ≡ snap.trackers h
  pub files : (h : String) (w : W) → (api.get_files h w).0 ≡ snap.files h
  pub peers : (h : String) (w : W) → (api.get_peers h w).0 ≡ snap.peers h
  pub webseeds : (h : String) (w : W) → (api.get_webseeds h w).0 ≡ snap.webseeds h
  pub properties : (h : String) (w : W) → (api.get_properties h w).0 ≡ snap.properties h
  pub transfer : (w : W) → (api.get_transfer_info w).0 ≡ snap.transfer
  pub app : (w : W) → (api.get_app_preferences w).0 ≡ snap.app

pub record Coherent (snap : Snapshot) (stats : Stats) (e : Evaluator) : Type 0 where
  pub trackers : Agrees snap.trackers e.trackers_cache
  pub files : Agrees snap.files e.files_cache
  pub peers : Agrees snap.peers e.peers_cache
  pub webseeds : Agrees snap.webseeds e.webseeds_cache
  pub properties : Agrees snap.properties e.properties_cache
  pub transfer : (v : Fields) → e.transfer_info ≡ some v → snap.transfer ≡ ok v
  pub app : (v : Fields) → e.app_preferences ≡ some v → snap.app ≡ ok v
  pub same_stats : e.stats ≡ stats

-- An action whose result is `r` from every coherent state, and that leaves a coherent state.
pub record Reads {W A : Type 0} (snap : Snapshot) (stats : Stats) (m : Action W A) (r : Result A)
    : Type 0 where
  pub result : (s : State W) → Coherent snap stats s.evaluator → (m s).0 ≡ r
  pub after :
      (s : State W) → Coherent snap stats s.evaluator → Coherent snap stats (m s).1.evaluator

module _ {W V : Type 0} (slot : Slot V) (request : W → Result V × W) (s : State W) where
  through_hit : (v : V) → slot.read s.evaluator ≡ some v → through slot request s ≡ (ok v, s)
  unfolding through
  through_hit v e = rw (through, e)

  through_miss :
      slot.read s.evaluator ≡ none
      → through slot request s ≡ store slot (request s.world) s.evaluator
  unfolding through
  through_miss e = rw (through, e)

module _ {W : Type 0} (snap : Snapshot) (stats : Stats) where
  pub Reads-lift : {A : Type 0} (r : Result A) → Reads {W = W} snap stats (lift r) r
  Reads-lift r = record { result = λ s h. refl; after = λ s h. h }

  pub Reads-bind :
      {A B : Type 0} (m : Action W A) (r : Result A) (f : A → Action W B) (g : A → Result B)
      → Reads snap stats m r
      → ((a : A) → Reads snap stats (f a) (g a))
      → Reads snap stats (m >>= f) (bind r g)
  Reads-bind {A} {B} m r f g km kf = record {
    result = λ s h. rw (km.result s h) (continued r (m s).1 (km.after s h)).0;
    after = λ s h. rw (km.result s h) (continued r (m s).1 (km.after s h)).1;
  }
    where
      continued :
          (x : Result A) (s : State W)
          → Coherent snap stats s.evaluator
          → ((continue x f s).0 ≡ bind x g) × Coherent snap stats (continue x f s).1.evaluator
      continued (ok a) s h = ((kf a).result s h, (kf a).after s h)
      continued (err e) s h = (refl, h)

  -- One cache: its entries are the server's answer, and what is stored is the server's answer.
  Reads-through :
      {V : Type 0} (slot : Slot V) (request : W → Result V × W) (r : Result V)
      → ((w : W) → (request w).0 ≡ r)
      → ((e : Evaluator) (v : V) → Coherent snap stats e → slot.read e ≡ some v → r ≡ ok v)
      → ((e : Evaluator) (v : V)
          → Coherent snap stats e
          → r ≡ ok v
          → Coherent snap stats (slot.write v e))
      → Reads snap stats (through slot request) r
  Reads-through {V} slot request r steady hit kept = record {
    result = λ s h. (each s h (slot.read s.evaluator) refl).0;
    after = λ s h. (each s h (slot.read s.evaluator) refl).1;
  }
    where
      stored :
          (s : State W) (x : Result V × W)
          → x.0 ≡ r
          → Coherent snap stats s.evaluator
          → ((store slot x s.evaluator).0 ≡ r)
            × Coherent snap stats (store slot x s.evaluator).1.evaluator
      stored s (ok v, w) e h = (e, kept s.evaluator v h (sym e))
      stored s (err x, w) e h = (e, h)

      each :
          (s : State W)
          → Coherent snap stats s.evaluator
          → (o : Option V) → slot.read s.evaluator ≡ o
          → ((through slot request s).0 ≡ r)
            × Coherent snap stats (through slot request s).1.evaluator
      each s h (some v) e = rw (through_hit slot request s v e) (sym (hit s.evaluator v h e), h)
      each s h none e =
          rw (through_miss slot request s e) (stored s (request s.world) (steady s.world) h)

Agrees-some :
    {V : Type 0} (r : Result V) (v : V)
    → r ≡ ok v
    → (x : V) → ◌≡◌ {A = Option V} (some v) (some x)
    → r ≡ ok x
Agrees-some r v e x found = ground arith

module _ {W : Type 0} (snap : Snapshot) (stats : Stats) (api : Api W)
    (steady : Steady api snap) where
  pub Reads-trackers :
      (h : String)
      → Reads snap stats (through (trackers_slot h) (api.get_trackers h)) (snap.trackers h)
  Reads-trackers h =
      Reads-through snap stats (trackers_slot h) (api.get_trackers h) (snap.trackers h)
        (steady.trackers h) (λ e v c found. c.trackers h v found)
        (λ e v c r. assumption (Agrees-cons snap.trackers e.trackers_cache h v c.trackers r))

  pub Reads-files :
      (h : String) → Reads snap stats (through (files_slot h) (api.get_files h)) (snap.files h)
  Reads-files h =
      Reads-through snap stats (files_slot h) (api.get_files h) (snap.files h) (steady.files h)
        (λ e v c found. c.files h v found)
        (λ e v c r. assumption (Agrees-cons snap.files e.files_cache h v c.files r))

  pub Reads-peers :
      (h : String) → Reads snap stats (through (peers_slot h) (api.get_peers h)) (snap.peers h)
  Reads-peers h =
      Reads-through snap stats (peers_slot h) (api.get_peers h) (snap.peers h) (steady.peers h)
        (λ e v c found. c.peers h v found)
        (λ e v c r. assumption (Agrees-cons snap.peers e.peers_cache h v c.peers r))

  pub Reads-webseeds :
      (h : String)
      → Reads snap stats (through (webseeds_slot h) (api.get_webseeds h)) (snap.webseeds h)
  Reads-webseeds h =
      Reads-through snap stats (webseeds_slot h) (api.get_webseeds h) (snap.webseeds h)
        (steady.webseeds h) (λ e v c found. c.webseeds h v found)
        (λ e v c r. assumption (Agrees-cons snap.webseeds e.webseeds_cache h v c.webseeds r))

  pub Reads-properties :
      (h : String)
      → Reads snap stats (through (properties_slot h) (api.get_properties h)) (snap.properties h)
  Reads-properties h =
      Reads-through snap stats (properties_slot h) (api.get_properties h) (snap.properties h)
        (steady.properties h) (λ e v c found. c.properties h v found)
        (λ e v c r. assumption (Agrees-cons snap.properties e.properties_cache h v c.properties r))

  pub Reads-transfer : Reads snap stats (through transfer_slot api.get_transfer_info) snap.transfer
  Reads-transfer =
      Reads-through snap stats transfer_slot api.get_transfer_info snap.transfer steady.transfer
        (λ e v c found. c.transfer v found) (λ e v c r. assumption (Agrees-some snap.transfer v r))

  pub Reads-app : Reads snap stats (through app_slot api.get_app_preferences) snap.app
  Reads-app =
      Reads-through snap stats app_slot api.get_app_preferences snap.app steady.app
        (λ e v c found. c.app v found) (λ e v c r. assumption (Agrees-some snap.app v r))
