-- ===== src/Store/History.antt =====
-- A save that replaces the rules file (src/qbt_rules/config_store.py: `write`, `_backup`;
-- src/qbt_rules/api_rules.py: `_save`) was based on what it replaces, which stays in the history.
use qbt_rules.Prelude.{
  ℕ, suc, ◌<◌, ◌≤◌, String, ◌≡◌, refl, sym, Bool, true, false, ◌&&◌, Option, some, List, [], ◌∷◌,
  zero, ◌+◌, count_if, length, not, str_eq, eq_iff, if◌then◌else◌, All, arith,
}
use qbt_rules.Value.{Value}
use qbt_rules.Conditions.{Runtime}
use qbt_rules.Store.{
  Disk, Stored, stored, unopened, partial, Replaced, swapped, rewritten, failed, torn, os_error,
  Moment, writable, Written, refused, backup, store_version, after_replace, write, put_version,
  prune, read_version,
}
use qbt_rules.Store.Editor.{
  Response, saved, forbidden, precondition_required, invalid, internal_error, precondition_failed,
  strip_etag, if_match_of, text_valid, respond, SaveRequest, save,
}

abbrev pub is_changed : Response → Bool
is_changed (saved changed s) = changed
is_changed forbidden = false
is_changed precondition_required = false
is_changed invalid = false
is_changed internal_error = false
is_changed (precondition_failed s) = false

-- A save that changed the file did not take the branch that refuses.
passed :
    {Z : Type 0} (f : Z → Response) (P : Z → Type 0) (b : Bool) (x y : Z)
    → is_changed (f x) ≡ false
    → (b ≡ false → is_changed (f y) ≡ true → P y)
    → is_changed (f (if b then x else y)) ≡ true
    → P (if b then x else y)
passed f P true x y e p h = ground (arith, e, h)
passed f P false x y e p h = p refl h

true_of_not : (b : Bool) → not b ≡ false → b ≡ true
true_of_not true h = refl
true_of_not false h = ground (arith, h)

-- The newest version is the one of now.
newest :
    (now : ℕ) (text : String) (vs : List (ℕ × String))
    → All (λ v. v.0 < now) vs
    → put_version now text vs ≡ (now, text) ∷ vs
unfolding put_version
newest now text [] a = refl
newest now text ((i, t) ∷ vs) (p, a) = ground (arith, p)

read_newest :
    (unlinks : ℕ → Bool) (k now : ℕ) (text : String) (vs : List (ℕ × String))
    → read_version now (prune unlinks (suc k) ((now, text) ∷ vs)) ≡ some text
unfolding read_version prune
read_newest unlinks k now text vs = ground arith

-- How many of the versions cannot be unlinked.
abbrev pub stuck : (ℕ → Bool) → List (ℕ × String) → ℕ
stuck unlinks vs = count_if (λ v. not (unlinks v.0)) vs

length-prune :
    (unlinks : ℕ → Bool) (n : ℕ) (vs : List (ℕ × String))
    → length (prune unlinks n vs) ≤ n + stuck unlinks vs
unfolding prune
length-prune unlinks n [] = omega arith
length-prune unlinks zero ((i, t) ∷ vs) = ground (arith, length-prune unlinks zero vs)
length-prune unlinks (suc n) ((i, t) ∷ vs) = ground (arith, length-prune unlinks n vs)

module _ (etag : String → String) (k : ℕ) where
  -- What the disk holds after a replacement, with `versions` the history before it.
  abbrev pub Replaces : Moment → String → String → List (ℕ × String) → Disk → Type 0
  Replaces at text current versions d' =
      (d'.file ≡ some text)
      × (read_version at.now d'.versions ≡ some current)
      × (length d'.versions ≤ suc k + stuck at.unlinks versions)

  abbrev pub holding : String → List (ℕ × String) → Disk
  holding current versions = record { file = some current; versions = versions }

  -- The history after a backup that was stored.
  backed_up : Moment → String → List (ℕ × String) → List (ℕ × String)
  backed_up at current versions = prune at.unlinks (suc k) (put_version at.now current versions)

  kept_lem :
      (at : Moment) (text current : String) (versions : List (ℕ × String))
      → All (λ v. v.0 < at.now) versions
      → Replaces at text current versions
          (record { file = some text; versions = backed_up at current versions })
  unfolding backed_up
  kept_lem at text current versions a = rw (newest at.now current versions a) (
    refl,
    read_newest at.unlinks k at.now current versions,
    unfold prune in omega (arith, length-prune at.unlinks k versions),
  )

  replaced_lem :
      (outcome : Replaced) (at : Moment) (text current : String) (versions : List (ℕ × String))
      → All (λ v. v.0 < at.now) versions
      → is_changed (
          (respond (
            after_replace etag
              (suc k)
              outcome
              text
              (holding current (backed_up at current versions)))).0)
        ≡ true
      → Replaces at text current versions (
          (respond (
            after_replace etag
              (suc k)
              outcome
              text
              (holding current (backed_up at current versions)))).1)
  replaced_lem swapped at text current versions a h = kept_lem at text current versions a
  replaced_lem rewritten at text current versions a h = kept_lem at text current versions a
  replaced_lem failed at text current versions a h = ground (arith, h)
  replaced_lem (torn part) at text current versions a h = ground (arith, h)

  backed_lem :
      (outcome : Stored) (at : Moment) (text current : String) (versions : List (ℕ × String))
      → let b = store_version etag (suc k) outcome at current (holding current versions) in
        let z : Written × Disk =
          if not b.0
          then (refused os_error, b.1)
          else after_replace etag (suc k) at.replaced text b.1 in
        All (λ v. v.0 < at.now) versions
        → is_changed ((respond z).0) ≡ true
        → Replaces at text current versions ((respond z).1)
  unfolding backed_up
  backed_lem stored at text current versions a h =
      replaced_lem at.replaced at text current versions a h
  backed_lem unopened at text current versions a h = ground (arith, h)
  backed_lem (partial part) at text current versions a h = ground (arith, h)

  write_lem :
      (at : Moment) (text base current : String) (versions : List (ℕ × String))
      → ((a b : String) → etag a ≡ etag b → a ≡ b)
      → All (λ v. v.0 < at.now) versions
      → is_changed ((respond (write etag (suc k) at text (etag base) (holding current versions))).0)
        ≡ true
      → (current ≡ base)
        × Replaces at text current versions
            ((respond (write etag (suc k) at text (etag base) (holding current versions))).1)
  unfolding write backup
  write_lem at text base current versions distinct a =
      passed answer P (not (writable at d)) _ _ refl (λ p.
        passed answer P (not (str_eq (etag base) (etag current))) _ _ refl (λ q.
          passed answer P (str_eq text current) _ _ refl
            (λ r h. (same q, backed_lem at.kept at text current versions a h))))
    where
      d : Disk
      d = holding current versions

      answer : Written × Disk → Response
      answer z = (respond z).0

      P : Written × Disk → Type 0
      P z = (current ≡ base) × Replaces at text current versions ((respond z).1)

      same : not (str_eq (etag base) (etag current)) ≡ false → current ≡ base
      same q = sym (distinct base current ((eq_iff (etag base) (etag current)).0 (true_of_not _ q)))

  -- A save that changed a file which was there, with an ETag that the client had for some
  -- content, found just that content in the file, if different contents have different ETags; it
  -- put the new content there, which validates, and kept the old one as the version of that
  -- moment, if the versions before it are older; the versions are then at most as many as are
  -- kept, which is at least one, and as many more as there were versions that cannot be unlinked.
  pub save-Replaces :
      (parse : String → Option Value) (rt : Runtime) (editor_enabled : Bool) (at : Moment)
      (request : SaveRequest) (base current : String) (versions : List (ℕ × String))
      → ((a b : String) → etag a ≡ etag b → a ≡ b)
      → All (λ v. v.0 < at.now) versions
      → if_match_of (strip_etag request.header) (strip_etag request.body) ≡ some (etag base)
      → is_changed
          ((save parse rt etag (suc k) editor_enabled at request (holding current versions)).0)
        ≡ true
      → (text_valid parse rt request.content ≡ true)
        × ((current ≡ base)
            × Replaces at request.content current versions (
                (save parse rt etag
                  (suc k)
                  editor_enabled
                  at
                  request
                  (holding current versions)).1))
  unfolding save
  save-Replaces parse rt editor_enabled at request base current versions distinct a e =
      passed (λ z. z.0) P (not (editor_enabled && writable at d)) _ _ refl
        (λ p h. rw (e) (
          passed (λ z. z.0) P (not (text_valid parse rt request.content)) _ _ refl
            (λ v h'.
              (true_of_not _ v, write_lem at request.content base current versions distinct a h'))
            (rw e at h)))
    where
      d : Disk
      d = holding current versions

      P : Response × Disk → Type 0
      P z =
          (text_valid parse rt request.content ≡ true)
          × ((current ≡ base) × Replaces at request.content current versions (z.1))
