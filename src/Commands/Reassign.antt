-- ===== src/Commands/Reassign.antt =====
-- domain/commands/AssignIncidentCommand.js: the reassignment that an admin makes by hand.
use campusops.Common.{ℕ, String, Option, none, some}
use campusops.Common.Exec.{Result, ok, err, gets, pure, throw, ◌>>=◌, ◌>>◌}
use campusops.Common.Int.{incr, decr}
use campusops.Errors.{Thrown}
use campusops.Incident.{
  Incident, World, StaffRef, Note, manual_reassign, assignment_undone, Action, edit, edit_staff,
  add_to_status_log,
}

-- The fields of the command; the two `previous` ones are read when it is made.
pub record AssignCommand : Type 0 where
  pub new_staff : StaffRef
  pub admin_id : String
  pub previous_staff_id : Option String
  pub previous_staff : Option StaffRef

-- `new AssignIncidentCommand(incident, newStaff, admin, incidentRepo)`
unfoldable pub new_command : StaffRef → String → World → AssignCommand
new_command r admin_id w = record {
  new_staff = r;
  admin_id = admin_id;
  previous_staff_id = w.incident.assigned_to_id;
  previous_staff = w.incident.assigned_to;
}

-- `activeTaskCount++` and `activeTaskCount--`
abbrev pub gain : StaffRef → Action
gain r = edit_staff r (λ s. record s { active_task_count = incr s.active_task_count })

abbrev pub lose : StaffRef → Action
lose r = edit_staff r (λ s. record s { active_task_count = decr s.active_task_count })

abbrev pub if_any : Option StaffRef → (StaffRef → Action) → Action
if_any none f = pure tt
if_any (some r) f = f r

module _ (save : Incident → Result Thrown String) where
  saved : Result Thrown String → Action
  saved (ok id) = pure tt
  saved (err e) = throw e

  persist : Action
  unfolding saved
  persist = do incident ← gets (λ (w : World). w.incident); saved (save incident)

  -- What `execute` and `undo` share: the log entry and the save.
  log_and_save : ℕ → String → Note → Action
  unfolding add_to_status_log persist
  log_and_save now admin_id note = do
    add_to_status_log now (record {
      status = "IN_PROGRESS";
      changed_by_id = some admin_id;
      note = note;
      changed_at = none;
    })
    persist

  unfoldable pub execute : ℕ → AssignCommand → Action
  unfolding log_and_save
  execute now c = do
    staff ← gets (λ (w : World). w.staff c.new_staff)
    edit (λ i. record i { assigned_to_id = some staff.id; assigned_to = some c.new_staff })
    gain c.new_staff
    if_any c.previous_staff lose
    log_and_save now c.admin_id (manual_reassign c.admin_id staff.id)

  unfoldable pub undo : ℕ → AssignCommand → Action
  unfolding log_and_save
  undo now c = do
    edit (λ i. record i { assigned_to_id = c.previous_staff_id; assigned_to = c.previous_staff })
    lose c.new_staff
    if_any c.previous_staff gain
    log_and_save now c.admin_id (assignment_undone c.previous_staff_id)
