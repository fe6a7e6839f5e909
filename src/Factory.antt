-- ===== src/Factory.antt =====
-- domain/factories/IncidentFactory.js: an incident of the right class with its policy attached.
-- `number` stands for what `generateNumber` returns, which is drawn at random.
pub mod Built
use campusops.Common.{
  ℕ, String, Bool, false, Option, none, some, List, [], ◌∷◌, or_default, str_eq, if◌then◌else◌,
}
use campusops.Common.Exec.{Result, ok, err}
use campusops.Errors.{DomainError, invalid_category}
use campusops.Sla.{SlaPolicy}
use campusops.Sla
use campusops.Incident.{
  Category, maintenance_category, security_category, infrastructure_category, emergency_category,
  IncidentClass, maintenance_incident, security_incident, infrastructure_incident,
  emergency_incident, general_incident, Location, open_state, Incident,
}
use campusops.Validation.{Dto}

-- `CATEGORY_CLASS_MAP[category]`, for the own keys of the map: the class with the fields that its
-- constructor fills in, and the category that it sets. `GeneralIncident` has no constructor, and the
-- factory passes none, so its category is undefined.
unfoldable pub category_class_map : String → Option ℕ → Option (IncidentClass × Option Category)
category_class_map name hours =
    if str_eq name "MAINTENANCE"
    then some (maintenance_incident hours, some maintenance_category)
    else if str_eq name "SECURITY"
    then some (security_incident none false, some security_category)
    else if str_eq name "INFRASTRUCTURE"
    then some (infrastructure_incident false none, some infrastructure_category)
    else if str_eq name "EMERGENCY"
    then some (emergency_incident none [], some emergency_category)
    else if str_eq name "CLEANLINESS"
    then some (maintenance_incident hours, some maintenance_category)
    else if str_eq name "OTHER"
    then some (general_incident, none)
    else none

class_of : Option String → Option ℕ → Option (IncidentClass × Option Category)
unfolding category_class_map
class_of none hours = none
class_of (some name) hours = category_class_map name hours

-- `new Location(location)` of an absent location takes the defaults.
abbrev location_of : Option Location → Location
location_of none = record { block = none; room = none; floor = none; description = none }
location_of (some l) = l

-- `new IncidentClass({ … })` over the defaults of the base class
new_incident : String → Dto → String → SlaPolicy → IncidentClass × Option Category → Incident
new_incident number dto creator_id sla (class, category) = record {
  class = class;
  id = none;
  incident_number = some number;
  title = dto.title;
  description = dto.description;
  category = category;
  priority = sla.priority;
  location = location_of dto.location;
  evidence_photos = dto.evidence_photos;
  resolution_photo = none;
  creator_id = creator_id;
  assigned_to_id = none;
  assigned_to = none;
  department_id = dto.department_id;
  sla = some sla;
  sla_job_id = none;
  state = open_state;
  resolution_note = none;
  resolved_at = none;
  is_duplicate = false;
  duplicate_of_id = none;
  duplicate_count = 0;
  feedback = none;
  status_log_entries = [];
  published_events = [];
  publisher = false;
}

with_sla :
    String
    → Dto
    → String
    → IncidentClass × Option Category
    → Result DomainError SlaPolicy
    → Result DomainError Incident
unfolding new_incident
with_sla number dto creator_id c (err e) = err e
with_sla number dto creator_id c (ok sla) = ok (new_incident number dto creator_id sla c)

with_class :
    String
    → Dto
    → String
    → ℕ
    → Option (IncidentClass × Option Category)
    → Result DomainError Incident
unfolding with_sla
with_class number dto creator_id created_at none =
    err (invalid_category (or_default dto.category "undefined"))
with_class number dto creator_id created_at (some c) =
    with_sla number dto creator_id c
      (Sla.create (or_default dto.priority "undefined") (some created_at))

-- `IncidentFactory.create(dto, creator, createdAt)`
unfoldable pub create :
    (number : String) → Dto → (creator_id : String) → ℕ → Result DomainError Incident
unfolding class_of with_class
create number dto creator_id created_at =
    with_class number dto creator_id created_at (class_of dto.category dto.estimated_duration_hours)
