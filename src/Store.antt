-- ===== src/Store.antt =====
-- src/qbt_rules/config_store.py, EditableFile: the rules file as the web editor reads and writes it. The
-- file's lock makes a write one step; what the file system does is an argument of the step. Texts stand
-- for their UTF-8 bytes.
pub mod Editor
pub mod Saves
pub mod History
mod Tests
use qbt_rules.Prelude.{
  ℕ, zero, suc, String, Bool, true, false, ◌&&◌, Option, none, some, List, [], ◌∷◌, not, ltb, ◌==◌,
  str_eq, if◌then◌else◌,
}

-- The file, and the versions in the history directory, newest first. A version's id is its time in
-- microseconds.
pub record Disk : Type 0 where
  pub file : Option String
  pub versions : List (ℕ × String)

pub record FileSnapshot : Type 0 where
  pub text : String
  pub etag : String

pub data StoreError : Type 0 where
  not_writable os_error : StoreError
  conflict : FileSnapshot → StoreError

-- `os.replace` moves the new file over the old one, or it cannot and the file is rewritten in place,
-- or it raises with the file as it was. The rewrite in place can raise halfway, and leave a text that is
-- neither the old nor the new one.
pub data Replaced : Type 0 where
  swapped rewritten failed : Replaced
  torn : String → Replaced

-- A new file is written, or cannot be opened, or the write of it raises and leaves a part.
pub data Stored : Type 0 where
  stored unopened : Stored
  partial : String → Stored

-- The exclusive creation of the rules file, where another process may have created it meanwhile.
pub data Created : Type 0 where
  made : Stored → Created
  appeared : String → Created

-- What the file system says and does at one write: the answers of os.access, the outcomes of the
-- backup, of the replacement and of the creation, whether the old version with a given id can be
-- unlinked, and the clock.
pub record Moment : Type 0 where
  pub file_access : Bool
  pub parent_access : Bool
  pub history_access : Bool
  pub kept : Stored
  pub unlinks : ℕ → Bool
  pub replaced : Replaced
  pub created : Created
  pub now : ℕ

pub data Written : Type 0 where
  written : FileSnapshot → Bool → Written
  refused : StoreError → Written

unfoldable pub writable : Moment → Disk → Bool
writable at d = elim d.file [
  | none ↦ at.parent_access && at.history_access
  | some text ↦ at.file_access && at.history_access
]

-- `write_bytes` under a name, in the order of `_versions`
unfoldable pub put_version : ℕ → String → List (ℕ × String) → List (ℕ × String)
put_version id text [] = (id, text) ∷ []
put_version id text ((i, t) ∷ vs) =
    let rest = put_version id text vs in
    if ltb i id
    then (id, text) ∷ (i, t) ∷ vs
    else if i == id
    then (id, text) ∷ vs
    else (i, t) ∷ rest

unfoldable pub read_version : ℕ → List (ℕ × String) → Option String
read_version id [] = none
read_version id ((i, t) ∷ vs) = let rest = read_version id vs in if i == id then some t else rest

-- All but the first `n` are unlinked, where an error of unlink is suppressed and leaves the version.
unfoldable pub prune : (ℕ → Bool) → ℕ → List (ℕ × String) → List (ℕ × String)
prune unlinks n [] = []
prune unlinks zero ((i, t) ∷ vs) =
    let rest = prune unlinks zero vs in if unlinks i then rest else (i, t) ∷ rest
prune unlinks (suc n) (v ∷ vs) = v ∷ prune unlinks n vs

-- `etag` is the hash of hashlib.
abbrev pub read : (String → String) → Disk → FileSnapshot
read etag d = elim d.file [
  | none ↦ record { text = ""; etag = etag "" }
  | some text ↦ record { text = text; etag = etag text }
]

-- `keep` is the number of versions that are kept.
module _ (etag : String → String) (keep : ℕ) where
  abbrev pub store_version : Stored → Moment → String → Disk → Bool × Disk
  store_version unopened at text d = (false, d)
  store_version (partial part) at text d =
      (false, record d { versions = put_version at.now part d.versions })
  store_version stored at text d =
      (true, record d { versions = prune at.unlinks keep (put_version at.now text d.versions) })

  -- `true`, or `false` for an OSError
  unfoldable pub backup : Moment → String → Disk → Bool × Disk
  backup at text d = store_version at.kept at text d

  abbrev pub after_replace : Replaced → String → Disk → Written × Disk
  after_replace failed text d = (refused os_error, d)
  after_replace (torn part) text d = (refused os_error, record d { file = some part })
  after_replace swapped text d =
      let d' : Disk = record d { file = some text } in (written (read etag d') true, d')
  after_replace rewritten text d =
      let d' : Disk = record d { file = some text } in (written (read etag d') true, d')

  -- `_create`, which does not overwrite a file that has appeared
  unfoldable pub create : Created → String → Disk → Written × Disk
  create (appeared other) text d =
      let d' : Disk = record d { file = some other } in (refused (conflict (read etag d')), d')
  create (made unopened) text d = (refused os_error, d)
  create (made (partial part)) text d = (refused os_error, record d { file = some part })
  create (made stored) text d =
      let d' : Disk = record d { file = some text } in (written (read etag d') true, d')

  abbrev pub write_over : Moment → String → Disk → Option String → Written × Disk
  write_over at text d none = create at.created text d
  write_over at text d (some current) =
      if str_eq text current
      then (written (read etag d) false, d)
      else if not (backup at current d).0
      then (refused os_error, (backup at current d).1)
      else after_replace at.replaced text (backup at current d).1

  unfoldable pub write : Moment → String → String → Disk → Written × Disk
  unfolding writable create backup
  write at text if_match d =
      if not (writable at d)
      then (refused not_writable, d)
      else if not (str_eq if_match (read etag d).etag)
      then (refused (conflict (read etag d)), d)
      else write_over at text d d.file
