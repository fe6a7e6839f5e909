-- ===== src/Middleware/Errors.antt =====
-- api/middleware/errorHandler.js: the status, the code and the body of an error response.
use campusops.Common.{
  ℕ, ◌≤◌, ◌<◌, String, ◌≡◌, refl, ◌⊎◌, inl, inr, false, Option, none, some, leb, str_eq, arith,
  if◌then◌else◌, ◌==◌,
}
use campusops.Errors.{
  DomainError, invalid_transition, resolution_photo_required, resolution_note_too_short,
  staff_unavailable, staff_not_eligible, no_staff_available, invalid_category, invalid_priority,
  validation_error, duplicate_incident, spam_throttle, incident_not_assignable, code, field, Thrown,
  domain, type_error, plain_error,
}

-- The properties of an error that the handler reads: `statusCode`, the domain class if it is of one,
-- `code`, `constructor.name` and `field`.
pub record ErrorValue : Type 0 where
  pub status_code : Option ℕ
  pub domain_error : Option DomainError
  pub code : Option String
  pub class_name : String
  pub field : Option String

-- `STATUS_MAP`
unfoldable pub status_map : DomainError → ℕ
status_map (validation_error f) = 422
status_map (invalid_category c) = 422
status_map (invalid_priority p) = 422
status_map (invalid_transition s a) = 422
status_map resolution_photo_required = 422
status_map resolution_note_too_short = 422
status_map incident_not_assignable = 422
status_map (duplicate_incident i n s) = 409
status_map (staff_unavailable i) = 409
status_map (staff_not_eligible i) = 409
status_map (spam_throttle n) = 429
status_map (no_staff_available d) = 503

class_status : Option DomainError → ℕ
unfolding status_map
class_status none = 500
class_status (some d) = status_map d

given_or_class : Option ℕ → Option DomainError → ℕ
given_or_class none d = class_status d
given_or_class (some n) d = if n == 0 then class_status d else n

unfoldable pub resolve_status_code : ErrorValue → ℕ
unfolding given_or_class class_status
resolve_status_code e = given_or_class e.status_code e.domain_error

named_or_internal : String → String
named_or_internal name =
    if str_eq name ""
    then "INTERNAL_ERROR"
    else if str_eq name "Error"
    then "INTERNAL_ERROR"
    else name

given_or_named : Option String → String → String
given_or_named none name = named_or_internal name
given_or_named (some c) name = if str_eq c "" then named_or_internal name else c

unfoldable pub resolve_code : ErrorValue → String
unfolding given_or_named named_or_internal
resolve_code e = given_or_named e.code e.class_name

-- The message sent: the error's own, or the generic one.
pub data ClientMessage : Type 0 where
  own_message generic_message : ClientMessage

pub record Response : Type 0 where
  pub status : ℕ
  pub code : String
  pub message : ClientMessage
  pub field : Option String

unfoldable pub error_handler : ErrorValue → Response
unfolding resolve_status_code resolve_code
error_handler e =
    let status = resolve_status_code e in
    record {
      status = status;
      code = resolve_code e;
      message = if leb 500 status then generic_message else own_message;
      field = e.field;
    }

abbrev domain_class_name : DomainError → String
domain_class_name (validation_error f) = "ValidationError"
domain_class_name (invalid_category c) = "InvalidCategoryError"
domain_class_name (invalid_priority p) = "InvalidPriorityError"
domain_class_name (invalid_transition s a) = "InvalidTransitionError"
domain_class_name resolution_photo_required = "ResolutionPhotoRequiredError"
domain_class_name resolution_note_too_short = "ResolutionNoteTooShortError"
domain_class_name incident_not_assignable = "IncidentNotAssignableError"
domain_class_name (duplicate_incident i n s) = "DuplicateIncidentError"
domain_class_name (staff_unavailable i) = "StaffUnavailableError"
domain_class_name (staff_not_eligible i) = "StaffNotEligibleError"
domain_class_name (spam_throttle n) = "SpamThrottleError"
domain_class_name (no_staff_available d) = "NoStaffAvailableError"

-- What the handler reads of something thrown. No domain error sets `statusCode`.
unfoldable pub error_value : Thrown → ErrorValue
unfolding code field
error_value (domain d) = record {
  status_code = none;
  domain_error = some d;
  code = some (code d);
  class_name = domain_class_name d;
  field = field d;
}
error_value type_error = record {
  status_code = none;
  domain_error = none;
  code = none;
  class_name = "TypeError";
  field = none;
}
error_value (plain_error m) = record {
  status_code = none;
  domain_error = none;
  code = none;
  class_name = "Error";
  field = none;
}

-- The error's own message reaches the client exactly when the status is below 500, whatever the
-- error: an unexpected one, with status 500, shows the generic message.
pub server_errors_hidden :
    (e : ErrorValue)
    → (((error_handler e).message ≡ own_message) × ((error_handler e).status < 500))
      ⊎ (((error_handler e).message ≡ generic_message) × (500 ≤ (error_handler e).status))
unfolding error_handler
server_errors_hidden e = grind arith

code_given : (d : DomainError) → str_eq (code d) "" ≡ false
unfolding code
code_given resolution_photo_required = refl
code_given _ = refl

-- Everything that the domain may throw gets the status of its class and its own code; what is no
-- domain error gets 500.
pub thrown_response :
    (t : Thrown)
    → ((d : DomainError) × (t ≡ domain d)
        × ((error_handler (error_value t)).status ≡ status_map d)
        × ((error_handler (error_value t)).code ≡ code d)
        × ((error_handler (error_value t)).field ≡ field d))
      ⊎ ((error_handler (error_value t)).status ≡ 500)
unfolding error_handler error_value
thrown_response (domain d) = inl (d, refl, refl, rw (code_given d), refl)
thrown_response type_error = inr refl
thrown_response (plain_error m) = inr refl
