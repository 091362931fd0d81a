-- ===== src/Store/Editor.antt =====
-- Saving rules.yml from the web editor (src/qbt_rules/api_rules.py: `_save`, `_strip_etag`,
-- `_editor_state`). The YAML library is the parameter `parse`.
use Prim.Native.Char.{code}
use qbt_rules.Prelude.{
  ℕ, String, Bool, false, ◌&&◌, Option, none, some, List, [], ◌∷◌, not, ◌==◌, str_eq, if◌then◌else◌,
}
use qbt_rules.Value.{Value}
use qbt_rules.Utils.{strip, starts_with}
use qbt_rules.Conditions.{Runtime}
use qbt_rules.Validation.Rules.{is_valid}
use qbt_rules.Store.{
  Disk, FileSnapshot, not_writable, os_error, conflict, Moment, writable, Written, written, refused,
  write,
}

-- The answers, by their status codes: 200, 403, 428, 422, 412, 500.
pub data Response : Type 0 where
  saved : Bool → FileSnapshot → Response
  forbidden precondition_required invalid internal_error : Response
  precondition_failed : FileSnapshot → Response

-- `value.strip('"')`
unfoldable pub strip_quotes_left : String → String
strip_quotes_left String.[] = ""
strip_quotes_left (String.◌∷◌ c s) =
    let rest = strip_quotes_left s in if code c == b'"' then rest else String.◌∷◌ c s

unfoldable pub strip_quotes_right : String → String
strip_quotes_right String.[] = ""
strip_quotes_right (String.◌∷◌ c s) =
    let rest = strip_quotes_right s in
    if code c == b'"' && str_eq rest "" then "" else String.◌∷◌ c rest

abbrev without_weak : String → String
without_weak (String.◌∷◌ c (String.◌∷◌ d s)) =
    if starts_with (String.◌∷◌ c (String.◌∷◌ d s)) "W/" then s else String.◌∷◌ c (String.◌∷◌ d s)
without_weak s = s

abbrev or_none : String → Option String
or_none s = if str_eq s "" then none else some s

unfoldable pub strip_etag : Option String → Option String
unfolding strip strip_quotes_left strip_quotes_right starts_with
strip_etag none = none
strip_etag (some s) = or_none (strip_quotes_right (strip_quotes_left (without_weak (strip s))))

abbrev pub if_match_of : Option String → Option String → Option String
if_match_of (some e) body = some e
if_match_of none body = body

abbrev pub parsed_valid : Runtime → Option Value → Bool
parsed_valid rt none = false
parsed_valid rt (some v) = is_valid rt none v

abbrev pub respond : Written × Disk → Response × Disk
respond (written snapshot changed, d) = (saved changed snapshot, d)
respond (refused not_writable, d) = (forbidden, d)
respond (refused os_error, d) = (internal_error, d)
respond (refused (conflict current), d) = (precondition_failed current, d)

-- What a request brings: the content, and the ETag in the header and in the body.
pub record SaveRequest : Type 0 where
  pub content : String
  pub header : Option String
  pub body : Option String

module _ (parse : String → Option Value) (rt : Runtime) where
  -- `validate_rules_text(text)["valid"]`
  unfoldable pub text_valid : String → Bool
  unfolding is_valid
  text_valid text = parsed_valid rt (parse text)

module _ (parse : String → Option Value) (rt : Runtime) (etag : String → String) (keep : ℕ) where
  abbrev pub save_if_match : Moment → String → Disk → Option String → Response × Disk
  save_if_match at content d none = (precondition_required, d)
  save_if_match at content d (some if_match) =
      if not (text_valid parse rt content)
      then (invalid, d)
      else respond (write etag keep at content if_match d)

  unfoldable pub save : Bool → Moment → SaveRequest → Disk → Response × Disk
  unfolding writable strip_etag text_valid write
  save editor_enabled at request d =
      if not (editor_enabled && writable at d)
      then (forbidden, d)
      else save_if_match at request.content d
          (if_match_of (strip_etag request.header) (strip_etag request.body))

  -- A sequence of requests, each at its moment.
  unfoldable pub save_all : Bool → List (Moment × SaveRequest) → Disk → Disk
  unfolding save
  save_all editor_enabled [] d = d
  save_all editor_enabled ((at, request) ∷ rest) d =
      save_all editor_enabled rest ((save editor_enabled at request d).1)
