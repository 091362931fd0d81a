-- ===== src/Validation/Leaves.antt =====
-- A condition on one field that the linter lets through, in the evaluator (src/qbt_rules/engine.py): what it
-- may raise.
use qbt_rules.Prelude.{
  String, ◌≡◌, refl, Bool, true, false, ◌&&◌, Option, none, some, List, [], ◌∷◌, str_eq, is_some,
  if◌then◌else◌, arith,
}
use qbt_rules.Value.{Value, null, bool, num, str, list, dict, Fields, get}
use qbt_rules.Utils.{split_dot}
use qbt_rules.Conditions.{Result, ok, err, field_error, Runtime}
use qbt_rules.Conditions.State.{Stats}
use qbt_rules.Conditions.Lookup.{hash_of, file_values}
use qbt_rules.Conditions.Evaluate.{operator_text}
use qbt_rules.Conditions.Snapshot.{
  Snapshot, bind, read_field, read_endpoint, compares, parts_hold, leaf_holds,
}
use qbt_rules.Validation.Evaluable.{operator_ok, leaf_ok}
use qbt_rules.Validation.Operators.{benign, known_operator, apply-benign}

-- A request answers, or fails with an error of the connection or of the API.
pub record AnswersOrFails (snap : Snapshot) : Type 0 where
  pub trackers : (h : String) → benign (snap.trackers h) ≡ true
  pub files : (h : String) → benign (snap.files h) ≡ true
  pub peers : (h : String) → benign (snap.peers h) ≡ true
  pub webseeds : (h : String) → benign (snap.webseeds h) ≡ true
  pub properties : (h : String) → benign (snap.properties h) ≡ true
  pub transfer : benign snap.transfer ≡ true
  pub app : benign snap.app ≡ true

pub bind-benign :
    {A B : Type 0} (r : Result A) (f : A → Result B)
    → benign r ≡ true
    → ((a : A) → benign (f a) ≡ true)
    → benign (bind r f) ≡ true
bind-benign (ok a) f p q = q a
bind-benign (err e) f p q = p

pub if_then :
    {A : Type 0} (b : Bool) (r s : Result A)
    → benign r ≡ true
    → benign s ≡ true
    → benign (if b then r else s) ≡ true
if_then true r s p q = p
if_then false r s p q = q

pub file_values-benign :
    (path hash name : String) (items : List Fields)
    → benign (file_values path hash name items) ≡ true
file_values-benign path hash name [] = refl
file_values-benign path hash name (f ∷ fs) = refl

-- The groups of a mapping, one after the other.
pub groups-benign :
    (a b c : Result Bool)
    → benign a ≡ true
    → benign b ≡ true
    → benign c ≡ true
    → benign (bind a (λ x. if x then bind b (λ y. if y then c else ok false) else ok false)) ≡ true
groups-benign a b c p q r =
    bind-benign a _ p
      (λ x. if_then x _ _ (bind-benign b _ q (λ y. if_then y c (ok false) r refl)) refl)

-- The three cases of a mapping.
pub mapping-benign :
    (ref groups x y z l : Bool) (three leaf : Result Bool)
    → (if ref then false else if groups then x && y && z else l) ≡ true
    → (x && y && z ≡ true → benign three ≡ true)
    → (l ≡ true → benign leaf ≡ true)
    → benign (if groups then three else leaf) ≡ true
mapping-benign false true x y z l three leaf h p q = p h
mapping-benign false false x y z l three leaf h p q = q h
mapping-benign true groups x y z l three leaf h p q = ground (arith, h)

pub either_evaluable :
    (b x y : Bool) (r s : Result Bool)
    → (if b then x else y) ≡ true
    → (x ≡ true → benign r ≡ true)
    → (y ≡ true → benign s ≡ true)
    → benign (if b then r else s) ≡ true
either_evaluable true x y r s h p q = p h
either_evaluable false x y r s h p q = q h

pub without_ref : (ref x : Bool) → (if ref then false else x) ≡ true → x ≡ true
without_ref true x h = ground (arith, h)
without_ref false x h = h

module _ (rt : Runtime) (snap : Snapshot) (stats : Stats) (torrent : Fields)
    (answers : AnswersOrFails snap) where
  endpoint-benign :
      (path endpoint name : String)
      → benign (read_endpoint rt snap stats torrent path endpoint name) ≡ true
  unfolding read_endpoint
  endpoint-benign path endpoint name = if_then (str_eq endpoint "info") _ _ refl (
      if_then (str_eq endpoint "trackers") _ _
        (bind-benign (snap.trackers (hash_of torrent)) _ (answers.trackers _) (λ a. refl))
        (if_then (str_eq endpoint "files") _ _
          (bind-benign (snap.files (hash_of torrent)) _ (answers.files _)
            (file_values-benign path (hash_of torrent) name))
          (if_then (str_eq endpoint "peers") _ _
            (bind-benign (snap.peers (hash_of torrent)) _ (answers.peers _) (λ a. refl))
            (if_then (str_eq endpoint "properties") _ _
              (bind-benign (snap.properties (hash_of torrent)) _ (answers.properties _) (λ a. refl))
              (if_then (str_eq endpoint "webseeds") _ _
                (bind-benign (snap.webseeds (hash_of torrent)) _ (answers.webseeds _) (λ a. refl))
                (if_then (str_eq endpoint "transfer") _ _
                  (bind-benign snap.transfer _ answers.transfer (λ a. refl))
                  (if_then (str_eq endpoint "app") _ _
                    (bind-benign snap.app _ answers.app (λ a. refl))
                    (if_then (str_eq endpoint "stats") _ _ refl refl))))))))

  parts-benign :
      (o : Option (String × String)) (path : String)
      → benign {A = Value} (elim o [
        | none ↦ err field_error
        | some (endpoint, name) ↦ read_endpoint rt snap stats torrent path endpoint name
      ])
        ≡ true
  parts-benign none path = refl
  parts-benign (some (endpoint, name)) path = endpoint-benign path endpoint name

  compares-benign :
      (v op expected : Value)
      → operator_ok (some op) ≡ true
      → benign (compares rt snap stats torrent v op expected) ≡ true
  unfolding read_field
  compares-benign (str path) op expected h =
      bind-benign (read_field rt snap stats torrent path) _ (parts-benign (split_dot path) path)
        (λ actual. apply-benign rt (operator_text op) (known_operator rt op h) actual expected)
  compares-benign null op expected h = refl
  compares-benign (bool b) op expected h = refl
  compares-benign (num n) op expected h = refl
  compares-benign (list vs) op expected h = refl
  compares-benign (dict fs) op expected h = refl

  leaf-benign :
      (f o v : Option Value)
      → is_some f && operator_ok o && is_some v ≡ true
      → benign (parts_hold rt snap stats torrent f o v) ≡ true
  unfolding operator_ok
  leaf-benign (some f) (some op) (some v) h = compares-benign f op v (ground (arith, h))
  leaf-benign none o v h = ground (arith, h)
  leaf-benign (some f) none v h = ground (arith, h)
  leaf-benign (some f) (some op) none h = ground (arith, h)

  pub leaf_holds-benign :
      (fs : Fields) → leaf_ok fs ≡ true → benign (leaf_holds rt snap stats torrent fs) ≡ true
  unfolding leaf_holds
  leaf_holds-benign fs h = leaf-benign (get "field" fs) (get "operator" fs) (get "value" fs) h
