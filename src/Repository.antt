-- ===== src/Repository.antt =====
-- infrastructure/repositories/IncidentRepository.js: incidents and the rows of their table.
-- The database client is `IncidentTable`, a parameter: the three calls of `prisma.incident` that
-- load and save. `S` is the state behind it.
pub mod Listing
pub mod Queries
pub mod Reload
pub mod Samples
pub mod Stats
pub mod Store
mod Examples
use campusops.Common.{
  ℕ, String, Bool, true, false, Option, none, some, List, [], or_default, str_eq, if◌then◌else◌,
}
use campusops.Common.Exec.{Exec, pure, ◌>>=◌, ◌>>◌}
use campusops.Common.Int.{ℤ, pos}
use campusops.Common.Text.{Text}
use campusops.Errors.{Thrown}
use campusops.User.{UserRole, StaffState, active, Staff, plain_object, is_truthy}
use campusops.Sla.{Priority, SlaPolicy, from_row}
use campusops.Incident.{
  Category, maintenance_category, security_category, infrastructure_category, cleanliness_category,
  emergency_category, other_category, IncidentClass, maintenance_incident, security_incident,
  infrastructure_incident, emergency_incident, general_incident, Location, Incident,
}
use campusops.Incident.Names.{get_name, state_map}
use campusops.Service.{Loaded}

-- The columns that an update writes.
pub record Columns : Type 0 where
  pub incident_number : Option String
  pub title : Text
  pub description : Text
  pub category : Option Category
  pub priority : Priority
  pub status : Text
  pub location_block : String
  pub location_room : Option String
  pub location_floor : Option String
  pub location_desc : Option String
  pub evidence_photos : List String
  pub resolution_photo : Option String
  pub assigned_to_id : Option String
  pub department_id : String
  pub sla_window_hours : Option ℕ
  pub sla_deadline_at : Option ℕ
  pub sla_is_escalated : Bool
  pub sla_escalated_at : Option ℕ
  pub sla_job_id : Option String
  pub resolution_note : Option Text
  pub resolved_at : Option ℕ
  pub is_duplicate : Bool
  pub duplicate_of_id : Option String
  pub duplicate_count : ℕ
  pub panic_broadcasted_at : Option ℕ

-- What `toDocument` returns; `id` and the incident number are left out when there is none.
pub record Document : Type 0 where
  pub id : Option String
  pub creator_id : String
  pub columns : Columns

-- The columns of the assignee that `INCIDENT_INCLUDE` joins.
pub record AssigneeRow : Type 0 where
  pub id : String
  pub role : UserRole
  pub active_task_count : Option ℤ
  pub staff_state : Option StaffState
  pub penalty_count : Option ℕ

pub record Row : Type 0 where
  pub id : String
  pub creator_id : String
  pub columns : Columns
  pub assigned_to : Option AssigneeRow

abbrev pub given : Option String → Option String
given o = if is_truthy o then o else none

-- A field that only one class has.
abbrev pub broadcasted_at : IncidentClass → Option ℕ
broadcasted_at (emergency_incident t ids) = t
broadcasted_at _ = none

-- `incident.sla?.field ?? fallback`
abbrev pub of_sla {ℓ} : {A : Type ℓ} → A → (SlaPolicy → A) → Option SlaPolicy → A
of_sla fallback f none = fallback
of_sla fallback f (some p) = f p

unfoldable pub to_columns : Incident → Columns
to_columns i = record {
  incident_number = given i.incident_number;
  title = i.title;
  description = i.description;
  category = i.category;
  priority = i.priority;
  status = get_name i.state;
  location_block = or_default i.location.block "";
  location_room = i.location.room;
  location_floor = i.location.floor;
  location_desc = i.location.description;
  evidence_photos = i.evidence_photos;
  resolution_photo = i.resolution_photo;
  assigned_to_id = i.assigned_to_id;
  department_id = i.department_id;
  sla_window_hours = of_sla none (λ p. some p.window_hours) i.sla;
  sla_deadline_at = of_sla none (λ p. p.deadline_at) i.sla;
  sla_is_escalated = of_sla false (λ p. p.is_escalated) i.sla;
  sla_escalated_at = of_sla none (λ p. p.escalated_at) i.sla;
  sla_job_id = i.sla_job_id;
  resolution_note = i.resolution_note;
  resolved_at = i.resolved_at;
  is_duplicate = i.is_duplicate;
  duplicate_of_id = i.duplicate_of_id;
  duplicate_count = i.duplicate_count;
  panic_broadcasted_at = broadcasted_at i.class;
}

-- `toDocument(incident)`
unfoldable pub to_document : Incident → Document
to_document i = record { id = given i.id; creator_id = i.creator_id; columns = to_columns i }

-- `INCIDENT_MAP[row.category] ?? INCIDENT_MAP['OTHER']` on the fields of the row: the table has no
-- column for the hours, the costs or the report number, so the constructors get their defaults.
unfoldable pub incident_map : Option Category → Option ℕ → IncidentClass × Option Category
incident_map (some maintenance_category) t = (maintenance_incident none, some maintenance_category)
incident_map (some cleanliness_category) t = (maintenance_incident none, some maintenance_category)
incident_map (some security_category) t = (security_incident none false, some security_category)
incident_map (some infrastructure_category) t =
    (infrastructure_incident false none, some infrastructure_category)
incident_map (some emergency_category) t = (emergency_incident t [], some emergency_category)
incident_map (some other_category) t = (general_incident, some other_category)
incident_map none t = (general_incident, none)

-- The plain object that is attached as `assignedTo`; `nobody` stands where there is none.
unfoldable pub to_assignee : Staff → Option AssigneeRow → Staff
to_assignee nobody none = nobody
to_assignee nobody (some r) = record {
  class = plain_object;
  id = r.id;
  role = r.role;
  department_id = none;
  active_task_count = or_default r.active_task_count (pos 0);
  staff_state = or_default r.staff_state active;
  penalty_count = or_default r.penalty_count 0;
  shift_days = [];
  shift_start = none;
  shift_end = none;
}

abbrev pub reference : Option AssigneeRow → Option ℕ
reference none = none
reference (some r) = some 0

-- `toEntity(row)`, with the attached object under reference 0
unfoldable pub to_entity : Staff → Row → Loaded
to_entity nobody row =
    let c = row.columns in
    let (class, category) = incident_map c.category c.panic_broadcasted_at in
    record {
      incident = record {
        class = class;
        id = some row.id;
        incident_number = c.incident_number;
        title = c.title;
        description = c.description;
        category = category;
        priority = c.priority;
        location = record {
          block = some c.location_block;
          room = c.location_room;
          floor = c.location_floor;
          description = c.location_desc;
        };
        evidence_photos = c.evidence_photos;
        resolution_photo = c.resolution_photo;
        creator_id = row.creator_id;
        assigned_to_id = c.assigned_to_id;
        assigned_to = reference row.assigned_to;
        department_id = c.department_id;
        sla =
            some
              (from_row c.priority c.sla_deadline_at (some c.sla_is_escalated) c.sla_escalated_at);
        sla_job_id = c.sla_job_id;
        state = state_map c.status;
        resolution_note = c.resolution_note;
        resolved_at = c.resolved_at;
        is_duplicate = c.is_duplicate;
        duplicate_of_id = c.duplicate_of_id;
        duplicate_count = c.duplicate_count;
        feedback = none;
        status_log_entries = [];
        published_events = [];
        publisher = false;
      };
      assignee = to_assignee nobody row.assigned_to;
    }

pub record IncidentTable (S : Type 0) : Type 0 where
  pub find_unique : String → Exec S Thrown (Option Row)
  pub update : String → Columns → Exec S Thrown (Unit {0})
  pub create : Document → Exec S Thrown String

module _ {S : Type 0} (table : IncidentTable S) where
  -- `row ? this.toEntity(row) : null`
  abbrev pub hydrate : Staff → Option Row → Option Loaded
  hydrate nobody none = none
  hydrate nobody (some row) = some (to_entity nobody row)

  unfoldable pub find_by_id : Staff → String → Exec S Thrown (Option Loaded)
  find_by_id nobody id = table.find_unique id >>= λ row. pure (hydrate nobody row)

  save_as : Option String → Document → Exec S Thrown String
  save_as none doc = table.create doc
  save_as (some id) doc = table.update id doc.columns >> pure id

  -- `save(incident)`: an update writes neither the id nor the creator.
  unfoldable pub save : Incident → Exec S Thrown String
  unfolding save_as
  save i = save_as (given i.id) (to_document i)
