-- ===== src/Commands/Undo.antt =====
-- What a manual reassignment changes, and that undoing it gives everything back but the log.
use campusops.Common.{ℕ, ◌≡◌, String, Option, none, some, arith, ◌==◌, if◌then◌else◌}
use campusops.Common.Exec.{Result}
use campusops.Common.Int.{ℤ, incr, decr, decr-incr, incr-decr}
use campusops.Errors.{Thrown}
use campusops.Incident.{Incident, World, StaffRef}
use campusops.Commands.Reassign.{new_command, execute, undo}

abbrev pub counter : World → StaffRef → ℤ
counter w q = (w.staff q).active_task_count

module _ (save : Incident → Result Thrown String) (now later : ℕ) (admin_id : String) where
  abbrev pub after_execute : StaffRef → World → World
  after_execute r w = (execute save now (new_command r admin_id w) w).1

  abbrev pub after_undo : StaffRef → World → World
  after_undo r w = (undo save later (new_command r admin_id w) (after_execute r w)).1

  -- The counter after a reassignment: up for the new staff member, down for the previous one.
  abbrev pub moved : Option StaffRef → StaffRef → StaffRef → ℤ → ℤ
  moved none r q n = if q == r then incr n else n
  moved (some p) r q n =
      let gained = if q == r then incr n else n in if q == p then decr gained else gained

  -- Whether or not the save succeeds, a manual reassignment moves one task from the previous staff
  -- member to the new one, and changes no counter when they are the same. It assigns the incident to
  -- the new one and leaves the state as it is, also where the log entry says IN_PROGRESS.
  pub execute_moves :
      (r : StaffRef) (w : World)
      → ((q : StaffRef)
          → counter (after_execute r w) q ≡ moved w.incident.assigned_to r q (counter w q))
        × ((after_execute r w).incident.assigned_to ≡ some r)
        × ((after_execute r w).incident.assigned_to_id ≡ some (w.staff r).id)
        × ((after_execute r w).incident.state ≡ w.incident.state)
  unfolding execute new_command
  execute_moves r w =
      (λ q. grind (arith, decr-incr, incr-decr), grind arith, grind arith, grind arith)

  -- Undoing a manual reassignment gives back the assignment and every task counter as they were
  -- before it, also for a staff member reassigned to the incident already held, whatever the saves
  -- answer.
  pub undo_restores :
      (r : StaffRef) (w : World)
      → ((q : StaffRef) → counter (after_undo r w) q ≡ counter w q)
        × ((after_undo r w).incident.assigned_to ≡ w.incident.assigned_to)
        × ((after_undo r w).incident.assigned_to_id ≡ w.incident.assigned_to_id)
        × ((after_undo r w).incident.state ≡ w.incident.state)
  unfolding execute undo new_command
  undo_restores r w =
      (λ q. grind (arith, decr-incr, incr-decr), grind arith, grind arith, grind arith)
