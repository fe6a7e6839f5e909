-- ===== src/Commands.antt =====
-- domain/commands: manual reassignment by an admin, alerts, and the invoker.
pub mod Alert
pub mod Invoker
pub mod Reassign
pub mod Undo
mod Examples
