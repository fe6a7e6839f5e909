-- ===== src/Samples.antt =====
-- Small concrete objects for the tests and the instances of the theorems.
use campusops.Common.{ℕ, zero, suc, String, false, none, some, [], ◌∷◌}
use campusops.Common.Int.{pos}
use campusops.Common.Text.{codes}
use campusops.User.{Staff, maintenance_staff, security_officer, maintenance, security, active}
use campusops.Sla.{high, SlaPolicy}
use campusops.Incident.{
  open_state, maintenance_incident, maintenance_category, Incident, World, StaffRef,
}

-- Weekday staff, nine to five.
abbrev pub day_worker : String → ℕ → Staff
day_worker id tasks = record {
  class = maintenance_staff;
  id = id;
  role = maintenance;
  department_id = some "D1";
  active_task_count = pos tasks;
  staff_state = active;
  penalty_count = 0;
  shift_days = codes "Mon" ∷ codes "Thursday" ∷ codes "FRI" ∷ [];
  shift_start = some (codes "09:00");
  shift_end = some (codes "17:30");
}

abbrev pub guard : String → ℕ → Staff
guard id tasks = record (day_worker id tasks) { class = security_officer; role = security }

abbrev pub four_hours : SlaPolicy
four_hours = record {
  priority = high;
  window_hours = 4;
  deadline_at = none;
  is_escalated = false;
  escalated_at = none;
}

abbrev pub leaking_tap : Incident
leaking_tap = record {
  class = maintenance_incident none;
  id = some "I1";
  incident_number = some "INC-1";
  title = codes "Tap";
  description = codes "It leaks";
  category = some maintenance_category;
  priority = high;
  location = record { block = some "A"; room = some "101"; floor = none; description = none };
  evidence_photos = [];
  resolution_photo = none;
  creator_id = "U1";
  assigned_to_id = none;
  assigned_to = none;
  department_id = "D1";
  sla = some four_hours;
  sla_job_id = none;
  state = open_state;
  resolution_note = none;
  resolved_at = none;
  is_duplicate = false;
  duplicate_of_id = none;
  duplicate_count = 0;
  feedback = none;
  status_log_entries = [];
  published_events = [];
  publisher = false;
}

abbrev pub crew : StaffRef → Staff
crew zero = day_worker "S0" 2
crew (suc n) = guard "S1" 1

abbrev pub start : World
start = record { incident = leaking_tap; staff = crew; outbox = [] }
