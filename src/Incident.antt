-- ===== src/Incident.antt =====
-- domain/entities/Incident.js: the aggregate and the objects that its methods read and write.
-- The state classes (domain/states) are in the child modules.
pub mod Calls
pub mod Events
mod Examples
pub mod Invariant
pub mod Lifecycle
pub mod Names
pub mod States
pub mod Workload
use campusops.Common.{
  ℕ, String, Bool, true, false, Option, none, some, List, [], ◌∷◌, ◌++◌, filter, not, ◌&&◌, ◌==◌,
  or_default, str_eq, if◌then◌else◌,
}
use campusops.Common.Exec.{Exec, modify, gets, when, ◌>>=◌, ◌>>◌}
use campusops.Common.Text.{Text}
use campusops.Errors.{Thrown}
use campusops.User.{
  UserRole, student, faculty, maintenance, security, admin, Staff, is_active, is_suspended,
}
use campusops.Sla.{Priority, SlaPolicy}

pub data Category : Type 0 where
  maintenance_category security_category infrastructure_category : Category
  cleanliness_category emergency_category other_category : Category

-- The concrete subclasses of `Incident`, with the fields that each adds.
pub data IncidentClass : Type 0 where
  maintenance_incident : (estimated_duration_hours : Option ℕ) → IncidentClass
  security_incident : (report_number : Option String) (alerts_broadcast : Bool) → IncidentClass
  infrastructure_incident :
      (requires_dept_head_approval : Bool) (estimated_cost : Option ℕ) → IncidentClass
  emergency_incident :
      (broadcasted_at : Option ℕ) (acknowledged_by_ids : List String) → IncidentClass
  general_incident : IncidentClass

-- The state object, one constructor for each class of domain/states.
pub data IncidentState : Type 0 where
  open_state in_progress_state resolved_state escalated_state reopened_state : IncidentState

-- The coordinates `lat` and `lng` are carried and never read by the domain; they are left out, as
-- are `panicLat` and `panicLng` of an emergency.
pub record Location : Type 0 where
  pub block : Option String
  pub room : Option String
  pub floor : Option String
  pub description : Option String

-- `rating.score` is what the request body holds: nothing, `null` or a number.
pub data Score : Type 0 where
  undefined null : Score
  points : ℕ → Score

pub record Rating : Type 0 where
  pub score : Score
  pub comment : Option Text

pub record Feedback : Type 0 where
  pub score : Score
  pub comment : Option Text
  pub submitted_at : ℕ

-- The note of a status log entry: a literal of the code, a template with its holes, or a text.
pub data Note : Type 0 where
  assigned_note assigned_after_escalation reassigned_after_failed : Note
  text_note : Text → Note
  reopened_rating : Score → Note
  manual_reassign : (admin_id staff_id : String) → Note
  assignment_undone : (staff_id : Option String) → Note
  sla_breach : (window_hours : Option ℕ) (escalation_level : ℕ) → Note

pub record LogEntry : Type 0 where
  pub status : String
  pub changed_by_id : Option String
  pub note : Note
  pub changed_at : Option ℕ

-- A staff object is shared by reference; references are numbers.
abbrev pub StaffRef : Type 0
StaffRef = ℕ

-- What `publish(eventType, payload)` is called with; the payload's `incident` is the one at hand.
pub data Event : Type 0 where
  incident_created incident_resolved : Event
  incident_assigned : StaffRef → Event
  incident_reassigned : StaffRef → Event
  incident_escalated : Note → Event
  incident_reopened_by_feedback : Rating → Event
  feedback_received : Rating → Event
  staff_under_review : StaffRef → Event

pub record Incident : Type 0 where
  pub class : IncidentClass
  pub id : Option String
  pub incident_number : Option String
  pub title : Text
  pub description : Text
  -- `undefined` when the caller of a `GeneralIncident` passes none
  pub category : Option Category
  pub priority : Priority
  pub location : Location
  pub evidence_photos : List String
  pub resolution_photo : Option String
  pub creator_id : String
  pub assigned_to_id : Option String
  pub assigned_to : Option StaffRef
  pub department_id : String
  pub sla : Option SlaPolicy
  pub sla_job_id : Option String
  pub state : IncidentState
  pub resolution_note : Option Text
  pub resolved_at : Option ℕ
  pub is_duplicate : Bool
  pub duplicate_of_id : Option String
  pub duplicate_count : ℕ
  pub feedback : Option Feedback
  pub status_log_entries : List LogEntry
  pub published_events : List Event
  -- whether a publisher is attached
  pub publisher : Bool

-- The objects in memory: an incident, the staff objects that references point to, and what an
-- attached publisher was told.
pub record World : Type 0 where
  pub incident : Incident
  pub staff : StaffRef → Staff
  pub outbox : List Event

abbrev pub M : Type 0 → Type 0
M A = Exec World Thrown A

abbrev pub Action : Type 0
Action = M (Unit {0})

abbrev pub edit : (Incident → Incident) → Action
edit f w = modify (λ (w : World). record w { incident = f w.incident }) w

abbrev pub edit_staff : StaffRef → (Staff → Staff) → Action
edit_staff r f w =
    modify (λ (w : World). record w { staff = λ q. if q == r then f (w.staff q) else w.staff q }) w

unfoldable pub set_state : IncidentState → Action
set_state s = edit (λ i. record i { state = s })

-- `addToStatusLog(entry)`: the time is the entry's own or the clock's.
unfoldable pub add_to_status_log : ℕ → LogEntry → Action
add_to_status_log now e = edit λ i. record i {
  status_log_entries =
      i.status_log_entries ++ record e { changed_at = some (or_default e.changed_at now) } ∷ [];
}

tell : Event → World → World
tell e w = if w.incident.publisher then record w { outbox = w.outbox ++ e ∷ [] } else w

-- `publish(eventType, payload)`
unfoldable pub publish : Event → Action
unfolding tell
publish e = do
  edit (λ i. record i { published_events = i.published_events ++ e ∷ [] })
  modify (tell e)

abbrev pub is_role : UserRole → UserRole → Bool
is_role student student = true
is_role faculty faculty = true
is_role maintenance maintenance = true
is_role security security = true
is_role admin admin = true
is_role _ _ = false

-- `u.departmentId === this.departmentId`
abbrev pub same_department : Option String → String → Bool
same_department none d = false
same_department (some e) d = str_eq e d

-- The predicate of each subclass's `getEligibleAssignees`.
is_eligible : Incident → IncidentClass → Staff → Bool
is_eligible i (maintenance_incident h) u =
    is_role u.role maintenance
    && same_department u.department_id i.department_id
    && is_active u.staff_state
is_eligible i (security_incident n b) u =
    is_role u.role security && not (is_suspended u.staff_state)
is_eligible i (infrastructure_incident a c) u =
    is_role u.role maintenance
    && same_department u.department_id i.department_id
    && is_active u.staff_state
is_eligible i (emergency_incident t ids) u =
    is_role u.role security && not (is_suspended u.staff_state)
is_eligible i general_incident u =
    same_department u.department_id i.department_id && is_active u.staff_state

unfoldable pub get_eligible_assignees : Incident → List Staff → List Staff
unfolding is_eligible
get_eligible_assignees i all_users = filter (is_eligible i i.class) all_users
