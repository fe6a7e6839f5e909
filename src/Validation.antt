-- ===== src/Validation.antt =====
-- domain/validators/ValidationChain.js: the chain of handlers that a new incident passes.
-- A handler reads the repository through `IncidentQueries`, the three methods of the context's
-- `incidentRepo` that the chain calls; `S` is the state behind it.
pub mod Verdicts
use campusops.Common.{
  ℕ, ◌*◌, String, Bool, true, false, ◌&&◌, not, Option, none, some, List, [], ◌∷◌, any, leb, length,
  str_eq, ◌==◌, if◌then◌else◌,
}
use campusops.Common.Exec.{Exec, Result, ok, err, pure, throw, throw_if, ◌>>=◌, ◌>>◌}
use campusops.Common.Text.{Text, codes, trim, is_empty}
use campusops.Errors.{Thrown, domain, validation_error, duplicate_incident, spam_throttle}
use campusops.Incident.{Location}

-- The request body that a new incident is made from.
pub record Dto : Type 0 where
  pub title : Text
  pub description : Text
  pub priority : Option String
  pub category : Option String
  pub location : Option Location
  pub evidence_photos : List String
  pub department_id : String
  pub estimated_duration_hours : Option ℕ

pub record Duplicate : Type 0 where
  pub id : String
  pub incident_number : String
  pub status : String

pub record IncidentQueries (S : Type 0) : Type 0 where
  pub find_duplicates : Option Location → Option String → ℕ → Exec S Thrown (Option Duplicate)
  pub increment_duplicate_count : String → Exec S Thrown (Unit {0})
  pub count_recent_by_user : String → ℕ → Exec S Thrown ℕ

pub record Context (S : Type 0) : Type 0 where
  pub user_id : Option String
  pub incident_repo : Option (IncidentQueries S)

pub data Handler : Type 0 where
  priority_validator category_validator location_validator duplicate_detector : Handler
  spam_throttle_validator photo_requirement_check : Handler

abbrev pub valid_priorities : List String
valid_priorities = "LOW" ∷ "MEDIUM" ∷ "HIGH" ∷ "CRITICAL" ∷ []

abbrev pub valid_categories : List String
valid_categories =
    "MAINTENANCE" ∷ "SECURITY" ∷ "INFRASTRUCTURE" ∷ "CLEANLINESS" ∷ "EMERGENCY" ∷ "OTHER" ∷ []

abbrev pub duplicate_window_hours : ℕ
duplicate_window_hours = 24

abbrev pub max_per_hour : ℕ
max_per_hour = 5

abbrev pub one_hour_ms : ℕ
one_hour_ms = 60 * 60 * 1000

-- `value && LIST.includes(value)`; no listed value is empty
abbrev pub is_listed : Option String → List String → Bool
is_listed none values = false
is_listed (some v) values = any (str_eq v) values

block_given : Option String → Bool
block_given none = false
block_given (some b) = not (is_empty (trim (codes b)))

unfoldable pub has_block : Option Location → Bool
unfolding block_given
has_block none = false
has_block (some l) = block_given l.block

abbrev pub is_critical : Option String → Bool
is_critical none = false
is_critical (some p) = str_eq p "CRITICAL"

module _ {S : Type 0} where
  reject_duplicate : IncidentQueries S → Option Duplicate → Exec S Thrown (Unit {0})
  reject_duplicate repo none = pure tt
  reject_duplicate repo (some e) = do
    repo.increment_duplicate_count e.id
    throw (domain (duplicate_incident e.id e.incident_number e.status))

  detect_duplicate : Option (IncidentQueries S) → Dto → Exec S Thrown (Unit {0})
  unfolding reject_duplicate
  detect_duplicate none dto = pure tt
  detect_duplicate (some repo) dto = do
    existing ← repo.find_duplicates dto.location dto.category duplicate_window_hours
    reject_duplicate repo existing

  throttle : Option (IncidentQueries S) → Option String → Exec S Thrown (Unit {0})
  throttle none user = pure tt
  throttle (some repo) none = pure tt
  throttle (some repo) (some user) = if str_eq user "" then pure tt else (do
    count ← repo.count_recent_by_user user one_hour_ms
    throw_if (leb max_per_hour count) (domain (spam_throttle count)))

  -- What a handler does before it passes control on.
  unfoldable pub check : Handler → Dto → Context S → Exec S Thrown (Unit {0})
  unfolding detect_duplicate throttle
  check priority_validator dto ctx =
      throw_if (not (is_listed dto.priority valid_priorities))
        (domain (validation_error "priority"))
  check category_validator dto ctx =
      throw_if (not (is_listed dto.category valid_categories))
        (domain (validation_error "category"))
  check location_validator dto ctx =
      throw_if (not (has_block dto.location)) (domain (validation_error "location.block"))
  check duplicate_detector dto ctx = detect_duplicate ctx.incident_repo dto
  check spam_throttle_validator dto ctx = throttle ctx.incident_repo ctx.user_id
  check photo_requirement_check dto ctx =
      throw_if (is_critical dto.priority && leb (length dto.evidence_photos) 0)
        (domain (validation_error "evidencePhotos"))

  -- `handler.validate(dto, context)`, on the handler and those linked behind it by `setNext`.
  unfoldable pub validate : List Handler → Dto → Context S → Exec S Thrown Dto
  validate [] dto ctx = pure dto
  validate (h ∷ next) dto ctx = do check h dto ctx; validate next dto ctx

-- `buildValidationChain()`
unfoldable pub build_validation_chain : List Handler
build_validation_chain =
    priority_validator ∷ category_validator ∷ location_validator ∷ duplicate_detector
    ∷ spam_throttle_validator ∷ photo_requirement_check ∷ []
