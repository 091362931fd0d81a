-- ===== src/Store/Saves.antt =====
-- What saving from the web editor (src/qbt_rules/api_rules.py and src/qbt_rules/config_store.py) keeps.
use qbt_rules.Prelude.{
  ℕ, String, ◌≡◌, refl, Bool, true, false, ◌&&◌, Option, none, some, List, [], ◌∷◌, not, str_eq,
  if◌then◌else◌, All,
}
use qbt_rules.Value.{Value}
use qbt_rules.Conditions.{Runtime}
use qbt_rules.Store.{
  Disk, not_writable, os_error, conflict, Replaced, swapped, rewritten, failed, torn, Stored,
  stored, unopened, partial, Created, made, appeared, Moment, writable, Written, written, refused,
  read, store_version, backup, after_replace, create, write_over, write,
}
use qbt_rules.Store.Editor.{
  Response, invalid, strip_etag, if_match_of, text_valid, respond, SaveRequest, save_if_match, save,
  save_all,
}

module _ (parse : String → Option Value) (rt : Runtime) (etag : String → String) (keep : ℕ) where
  abbrev valid_if : Option String → Bool
  valid_if none = true
  valid_if (some text) = text_valid parse rt text

  -- The file, if it is there, validates.
  abbrev pub IsSound : Disk → Type 0
  IsSound d = valid_if d.file ≡ true

  abbrev pub is_whole : Replaced → Bool
  is_whole (torn part) = false
  is_whole swapped = true
  is_whole rewritten = true
  is_whole failed = true

  abbrev pub leaves_sound : Created → Bool
  leaves_sound (made (partial part)) = false
  leaves_sound (made stored) = true
  leaves_sound (made unopened) = true
  leaves_sound (appeared other) = text_valid parse rt other

  -- No write of the rules file stops halfway, and a file that another process creates validates.
  abbrev pub IsWhole : Moment × SaveRequest → Type 0
  IsWhole x = (is_whole ((x.0).replaced) ≡ true) × (leaves_sound ((x.0).created) ≡ true)

  replace-IsSound :
      (outcome : Replaced) (text : String) (d : Disk)
      → text_valid parse rt text ≡ true
      → is_whole outcome ≡ true
      → IsSound d
      → IsSound ((after_replace etag keep outcome text d).1)
  replace-IsSound swapped text d v w h = v
  replace-IsSound rewritten text d v w h = v
  replace-IsSound failed text d v w h = h
  replace-IsSound (torn part) text d v w h = cc

  create-IsSound :
      (outcome : Created) (text : String) (d : Disk)
      → text_valid parse rt text ≡ true
      → leaves_sound outcome ≡ true
      → IsSound d
      → IsSound ((create etag keep outcome text d).1)
  unfolding create
  create-IsSound (made stored) text d v a h = v
  create-IsSound (made unopened) text d v a h = h
  create-IsSound (made (partial part)) text d v a h = cc
  create-IsSound (appeared other) text d v a h = a

  backup-IsSound :
      (at : Moment) (text : String) (d : Disk)
      → IsSound d
      → IsSound ((backup etag keep at text d).1)
  unfolding backup
  backup-IsSound at text d h = stored_lem at.kept
    where
      stored_lem : (outcome : Stored) → IsSound ((store_version etag keep outcome at text d).1)
      stored_lem stored = h
      stored_lem unopened = h
      stored_lem (partial part) = h

  if-IsSound :
      {A : Type 0} (b : Bool) (x y : A × Disk)
      → IsSound (x.1)
      → IsSound (y.1)
      → IsSound ((if b then x else y).1)
  if-IsSound true x y p q = p
  if-IsSound false x y p q = q

  write_over-IsSound :
      (at : Moment) (text : String) (d : Disk) (o : Option String)
      → text_valid parse rt text ≡ true
      → is_whole at.replaced ≡ true
      → leaves_sound at.created ≡ true
      → IsSound d
      → IsSound ((write_over etag keep at text d o).1)
  write_over-IsSound at text d none v w a h = create-IsSound at.created text d v a h
  write_over-IsSound at text d (some current) v w a h =
      let after = (backup etag keep at current d).1 in
      let left = backup-IsSound at current d h in
      if-IsSound (str_eq text current) _ _ h (
        if-IsSound (not (backup etag keep at current d).0) (refused os_error, after) _ left
          (replace-IsSound at.replaced text after v w left))

  write-IsSound :
      (at : Moment) (text if_match : String) (d : Disk)
      → text_valid parse rt text ≡ true
      → is_whole at.replaced ≡ true
      → leaves_sound at.created ≡ true
      → IsSound d
      → IsSound ((write etag keep at text if_match d).1)
  unfolding write
  write-IsSound at text if_match d v w a h = if-IsSound (not (writable at d)) _ _ h (
      if-IsSound (not (str_eq if_match (read etag d).etag)) _ _ h
        (write_over-IsSound at text d d.file v w a h))

  respond_lem : (x : Written × Disk) → (respond x).1 ≡ x.1
  respond_lem (written s b, d) = refl
  respond_lem (refused not_writable, d) = refl
  respond_lem (refused os_error, d) = refl
  respond_lem (refused (conflict s), d) = refl

  checked-IsSound :
      (v : Bool) (content : String) (x : Response × Disk) (d : Disk)
      → text_valid parse rt content ≡ v
      → (text_valid parse rt content ≡ true → IsSound (x.1))
      → IsSound d
      → IsSound ((if not v then (invalid, d) else x).1)
  checked-IsSound true content x d e p h = p e
  checked-IsSound false content x d e p h = h

  save-IsSound :
      (editor_enabled : Bool) (at : Moment) (request : SaveRequest) (d : Disk)
      → is_whole at.replaced ≡ true
      → leaves_sound at.created ≡ true
      → IsSound d
      → IsSound ((save parse rt etag keep editor_enabled at request d).1)
  unfolding save
  save-IsSound editor_enabled at request d w a h =
      if-IsSound (not (editor_enabled && writable at d)) _ _ h
        (matched (if_match_of (strip_etag request.header) (strip_etag request.body)))
    where
      matched :
          (o : Option String)
          → IsSound ((save_if_match parse rt etag keep at request.content d o).1)
      matched none = h
      matched (some if_match) =
          checked-IsSound (text_valid parse rt request.content) request.content _ d refl
            (λ v.
              rw (respond_lem (write etag keep at request.content if_match d))
                (write-IsSound at request.content if_match d v w a h))
            h

  -- If the rules file validates, or is not there, then after any sequence of saves from the
  -- editor it still does, whatever the contents sent, if no rewrite in place and no creation of
  -- the file stops halfway, and any file that another process creates meanwhile validates; a
  -- write may fail before it changes the file, and a backup at any point.
  pub save_all-IsSound :
      (editor_enabled : Bool) (requests : List (Moment × SaveRequest)) (d : Disk)
      → All IsWhole requests
      → IsSound d
      → IsSound (save_all parse rt etag keep editor_enabled requests d)
  unfolding save_all
  save_all-IsSound editor_enabled [] d a h = h
  save_all-IsSound editor_enabled ((at, request) ∷ rest) d ((w, a), as') h =
      save_all-IsSound editor_enabled rest _ as' (save-IsSound editor_enabled at request d w a h)
