-- ===== src/Commands/Examples.antt =====
-- The commands of an admin at concrete objects.
use campusops.Common.{◌≡◌, String, some}
use campusops.Common.Exec.{Result, ok}
use campusops.Errors.{Thrown}
use campusops.Incident.{Incident, StaffRef, World, open_state}
use campusops.Samples.{start}
use campusops.Commands.Undo.{counter, after_undo, undo_restores}

abbrev saves : Incident → Result Thrown String
saves i = ok "I1"

-- The incident is held by the same staff member that it is reassigned to.
abbrev held : World
held = record start {
  incident = record start.incident { assigned_to = some 0; assigned_to_id = some "S0" };
}

undo_restores_example :
    ((q : StaffRef) → counter (after_undo saves 1 2 "A1" 0 held) q ≡ counter held q)
    × ((after_undo saves 1 2 "A1" 0 held).incident.assigned_to ≡ some 0)
    × ((after_undo saves 1 2 "A1" 0 held).incident.assigned_to_id ≡ some "S0")
    × ((after_undo saves 1 2 "A1" 0 held).incident.state ≡ open_state)
undo_restores_example = undo_restores saves 1 2 "A1" 0 held
