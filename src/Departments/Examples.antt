-- ===== src/Departments/Examples.antt =====
-- An assignment over queries on a table of one row.
use campusops.Common.{
  ℕ, ◌+◌, ◌≡◌, refl, Bool, true, false, none, some, List, [], ◌∷◌, All, if◌then◌else◌,
}
use campusops.Common.Exec.{ok}
use campusops.Common.Int.{pos}
use campusops.User.{Staff, maintenance, active}
use campusops.Incident.{World, Event, StaffRef, incident_assigned}
use campusops.Incident.States.{assign_staff}
use campusops.Strategy.{Department}
use campusops.Strategy
use campusops.Service.{
  Loaded, IncidentRepo, loaded_world, assign_incident, need, assign_found, is_assignable,
  with_department, with_strategy, pick, hand_over, act, store, announce,
}
use campusops.Service.Outcomes.{Stored}
use campusops.Service.Assignment.{Assigned}
use campusops.Samples.{leaking_tap, day_worker}
use campusops.Departments.{
  StaffRow, Where, DepartmentTables, department_repo, meets, to_staff, find_eligible_staff,
}
use campusops.Departments.Eligible.{Selects, IsFit, assign_incident_fits}

abbrev sam : StaffRow
sam = record {
  id = "S1";
  role = maintenance;
  department_id = some "D1";
  is_active = true;
  active_task_count = some (pos 1);
  staff_state = some active;
  penalty_count = none;
  shift_days = none;
  shift_start = none;
  shift_end = none;
}

abbrev works : Department
works = record {
  id = "D1";
  name = "Works";
  assignment_strategy = "ROUND_ROBIN";
  round_robin_index = none;
}

abbrev found : Bool → List StaffRow
found b = if b then sam ∷ [] else []

abbrev one_row : DepartmentTables ℕ
one_row = record {
  find_unique = λ id s. (ok (some works), s);
  find_many = λ w s. (ok (found (meets w sam)), s);
}

rows_selected : (w : Where) (b : Bool) → meets w sam ≡ b → All (λ r. meets w r ≡ true) (found b)
rows_selected w true h = (h, tt)
rows_selected w false h = tt

one_row-Selects : Selects one_row
one_row-Selects = record {
  selected = λ w s t rows h.
      let same : found (meets w sam) ≡ rows = cc in rw⁻¹ same (rows_selected w (meets w sam) refl);
}

abbrev tap : Loaded
tap = record { incident = leaking_tap; assignee = day_worker "S0" 2 }

abbrev repo : IncidentRepo ℕ
repo = record {
  queries = record {
    find_duplicates = λ l c h s. (ok none, s);
    increment_duplicate_count = λ i s. (ok tt, s);
    count_recent_by_user = λ u w s. (ok 0, s);
  };
  find_by_id = λ id s. (ok (some tap), s);
  save = λ i s. (ok "I1", s + 1);
}

abbrev silent : Event → World → ℕ → World × ℕ
silent e w s = (w, s)

abbrev utc : ℕ → ℕ
utc t = t

assigned : World
unfolding to_staff
assigned = (assign_staff 50 1 (loaded_world tap (to_staff sam ∷ []))).1

assign_incident_fits_example :
    (l : Loaded) × (u : ℕ) × (eligible : List Staff) × (r : StaffRef) × (w : World) × (x : ℕ)
    × (repo.find_by_id "I1" 7 ≡ (ok (some l), u))
    × Assigned repo (department_repo one_row) silent utc 50 l eligible r w
    × Stored repo (department_repo one_row) silent utc 50 (incident_assigned r) w x assigned 8
    × IsFit l.incident.category l.incident.department_id ((loaded_world l eligible).staff r)
unfolding assigned assign_incident need assign_found is_assignable with_department
    find_eligible_staff with_strategy pick Strategy.assign Strategy.create meets hand_over act
    assign_staff store announce
assign_incident_fits_example =
    assign_incident_fits repo one_row silent utc 50 one_row-Selects "I1" assigned 7 8 refl
