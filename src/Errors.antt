-- ===== src/Errors.antt =====
-- domain/errors/index.js: the typed domain errors, and what else the code throws.
-- A message text is a function of the fields that a constructor holds, so it is not stored.
use campusops.Common.{ℕ, String, Option, none, some}

pub data DomainError : Type 0 where
  invalid_transition : String → String → DomainError
  resolution_photo_required resolution_note_too_short : DomainError
  staff_unavailable staff_not_eligible : String → DomainError
  no_staff_available : String → DomainError
  invalid_category invalid_priority : String → DomainError
  validation_error : String → DomainError
  duplicate_incident : (id number status : String) → DomainError
  spam_throttle : ℕ → DomainError
  incident_not_assignable : DomainError

-- `err.code`, as each constructor passes it to `DomainError`
unfoldable pub code : DomainError → String
code (invalid_transition s a) = "INVALID_STATE_TRANSITION"
code resolution_photo_required = "RESOLUTION_PHOTO_REQUIRED"
code resolution_note_too_short = "RESOLUTION_NOTE_TOO_SHORT"
code (staff_unavailable i) = "STAFF_UNAVAILABLE"
code (staff_not_eligible i) = "STAFF_NOT_ELIGIBLE"
code (no_staff_available d) = "NO_STAFF_AVAILABLE"
code (invalid_category c) = "INVALID_CATEGORY"
code (invalid_priority p) = "INVALID_PRIORITY"
code (validation_error f) = "VALIDATION_ERROR"
code (duplicate_incident i n s) = "DUPLICATE_INCIDENT"
code (spam_throttle n) = "SPAM_THROTTLE"
code incident_not_assignable = "INCIDENT_NOT_ASSIGNABLE"

-- `err.field`, which only a validation error has
unfoldable pub field : DomainError → Option String
field (validation_error f) = some f
field _ = none

-- What a call may throw: a domain error, a `TypeError` of the language, or a plain `Error`.
pub data Thrown : Type 0 where
  domain : DomainError → Thrown
  type_error : Thrown
  plain_error : String → Thrown
