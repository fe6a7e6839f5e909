-- ===== src/Commands/Invoker.antt =====
-- domain/commands/CommandInvoker.js, Command.js and the audit entries of the two commands.
-- `log` stands for `prisma.auditLog.create`.
use Prim.Native.String.{◌++◌ as ◌+++◌}
use campusops.Common.{◌≡◌, String, Option, none}
use campusops.Common.Exec.{Exec, ok, ◌>>◌, >>=-eq-ok}
use campusops.Common.Text.{Text}
use campusops.Errors.{Thrown}
use campusops.Incident.{World}
use campusops.Commands.Alert.{AlertData, Desk}
use campusops.Commands.Reassign.{AssignCommand}

pub data AuditPayload : Type 0 where
  reassigned : (from_staff_id : Option String) (to_staff_id : String) → AuditPayload
  broadcast : (alert_id : Option String) (title : Text) (scope_target : String) → AuditPayload

pub record AuditEntry : Type 0 where
  pub command_type : String
  pub actor_id : String
  pub incident_id : Option String
  pub payload : AuditPayload

-- `AssignIncidentCommand.getAuditEntry()`
unfoldable pub assign_audit_entry : AssignCommand → World → AuditEntry
assign_audit_entry c w = record {
  command_type = "AssignIncident";
  actor_id = c.admin_id;
  incident_id = w.incident.id;
  payload = reassigned c.previous_staff_id (w.staff c.new_staff).id;
}

-- `BroadcastAlertCommand.getAuditEntry()`
unfoldable pub alert_audit_entry : {S : Type 0} → AlertData → String → Desk S → AuditEntry
alert_audit_entry a admin_id d = record {
  command_type = "BroadcastAlert";
  actor_id = admin_id;
  incident_id = none;
  payload = broadcast d.alert_id a.title a.scope_target;
}

-- What a subclass of `Command` implements; `S` holds the objects that it works on.
pub record Command (S : Type 0) : Type 0 where
  pub execute : Exec S Thrown (Unit {0})
  pub undo : Exec S Thrown (Unit {0})
  pub get_audit_entry : S → AuditEntry

module _ {S : Type 0} (log : AuditEntry → Exec S Thrown (Unit {0})) where
  -- `execute(command)`
  unfoldable pub execute : Command S → Exec S Thrown (Unit {0})
  execute c = c.execute >> λ s. log (c.get_audit_entry s) s

  -- `undo(command)`
  unfoldable pub undo : Command S → Exec S Thrown (Unit {0})
  undo c = c.undo >> λ s.
      let entry = c.get_audit_entry s in
      log (record entry { command_type = "UNDO_" +++ entry.command_type }) s

  -- When the invoker returns from a command, the command has returned, and the entry that describes
  -- the objects after it has been logged.
  pub execute_logged :
      (c : Command S) (s t : S)
      → execute c s ≡ (ok tt, t)
      → (u : S) × (c.execute s ≡ (ok tt, u)) × (log (c.get_audit_entry u) u ≡ (ok tt, t))
  unfolding execute
  execute_logged c s t h =
      let (x, u, ran, logged) =
        >>=-eq-ok c.execute (λ (x : Unit {0}) (s : S). log (c.get_audit_entry s) s) s h in
      (u, ran, logged)
