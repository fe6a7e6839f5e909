-- ===== src/Sla.antt =====
-- domain/entities/SLAPolicy.js: deadlines in milliseconds since the epoch.
pub mod Deadlines
use campusops.Common.{
  ℕ, ◌+◌, ◌-◌, ◌*◌, String, Bool, true, false, Option, none, some, leb, str_eq, or_default,
  if◌then◌else◌,
}
use campusops.Common.Exec.{Result, ok, err}
use campusops.Errors.{DomainError, invalid_priority}

pub data Priority : Type 0 where
  critical high medium low : Priority

-- An instance of one of the four subclasses; the priority says which.
pub record SlaPolicy : Type 0 where
  pub priority : Priority
  pub window_hours : ℕ
  pub deadline_at : Option ℕ
  pub is_escalated : Bool
  pub escalated_at : Option ℕ

abbrev pub hour_ms : ℕ
hour_ms = 60 * 60 * 1000

-- The `windowHours` that each subclass passes to the base class.
unfoldable pub window_of : Priority → ℕ
window_of critical = 2
window_of high = 4
window_of medium = 8
window_of low = 24

unfoldable pub get_deadline : SlaPolicy → ℕ → ℕ
get_deadline sla created_at = created_at + sla.window_hours * hour_ms

unfoldable pub attach_to : SlaPolicy → ℕ → SlaPolicy
unfolding get_deadline
attach_to sla created_at = record sla { deadline_at = some (get_deadline sla created_at) }

passed : Option ℕ → ℕ → Bool
passed none now = false
passed (some t) now = leb t now

unfoldable pub is_breached : SlaPolicy → ℕ → Bool
unfolding passed
is_breached sla now = passed sla.deadline_at now

-- `Math.max(0, deadline - now)`: truncated subtraction is the maximum with 0.
remaining : ℕ → Option ℕ → ℕ → ℕ
remaining window none now = window * hour_ms
remaining window (some t) now = t - now

unfoldable pub get_remaining_ms : SlaPolicy → ℕ → ℕ
unfolding remaining
get_remaining_ms sla now = remaining sla.window_hours sla.deadline_at now

pub data EscalationTarget : Type 0 where
  to_dean to_hod : EscalationTarget

unfoldable pub get_escalation_target : SlaPolicy → EscalationTarget
get_escalation_target sla = elim sla.priority [ critical ↦ to_dean | _ ↦ to_hod ]

-- `PRIORITY_CLASS_MAP[name]`, for the own keys of the map
unfoldable pub priority_class_map : String → Option Priority
priority_class_map name =
    if str_eq name "CRITICAL"
    then some critical
    else if str_eq name "HIGH"
    then some high
    else if str_eq name "MEDIUM"
    then some medium
    else if str_eq name "LOW"
    then some low
    else none

-- `new SLAClass(options)` over the defaults of the base class
unfoldable pub new_sla : Priority → Option ℕ → Bool → Option ℕ → SlaPolicy
unfolding window_of
new_sla p deadline_at is_escalated escalated_at = record {
  priority = p;
  window_hours = window_of p;
  deadline_at = deadline_at;
  is_escalated = is_escalated;
  escalated_at = escalated_at;
}

attach_if : SlaPolicy → Option ℕ → SlaPolicy
attach_if sla none = sla
attach_if sla (some t) = attach_to sla t

create_class : String → Option Priority → Option ℕ → Result DomainError SlaPolicy
create_class name none created_at = err (invalid_priority name)
create_class name (some p) created_at = ok (attach_if (new_sla p none false none) created_at)

-- `SLAFactory.create(priority, createdAt)`
unfoldable pub create : String → Option ℕ → Result DomainError SlaPolicy
unfolding priority_class_map new_sla attach_to attach_if create_class
create name created_at = create_class name (priority_class_map name) created_at

-- `SLAFactory.fromRow(row)`. The column `priority` is an enum of the schema, so the class is found.
unfoldable pub from_row : Priority → Option ℕ → Option Bool → Option ℕ → SlaPolicy
unfolding new_sla
from_row p deadline_at is_escalated escalated_at =
    new_sla p deadline_at (or_default is_escalated false) escalated_at
