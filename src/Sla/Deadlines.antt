-- ===== src/Sla/Deadlines.antt =====
-- Deadlines, breaches and the time that remains (domain/entities/SLAPolicy.js).
use campusops.Common.{ℕ, ◌+◌, ◌*◌, ◌≤◌, ◌≡◌, ◌↔◌, true, false, none, arith}
use campusops.Sla.{SlaPolicy, hour_ms, attach_to, is_breached, get_remaining_ms}

-- A policy with a deadline attached at `t` is breached at `now` exactly when no time remains, which
-- is exactly when the window after `t` has passed.
pub attached_breach_iff :
    (sla : SlaPolicy) (t now : ℕ)
    → ((is_breached (attach_to sla t) now ≡ true) ↔ (get_remaining_ms (attach_to sla t) now ≡ 0))
      × ((is_breached (attach_to sla t) now ≡ true) ↔ (t + sla.window_hours * hour_ms ≤ now))
unfolding is_breached attach_to get_remaining_ms
attached_breach_iff sla t now = (ground arith, ground arith)

-- A policy without a deadline is never breached, and always shows its whole window.
pub detached_never_breached :
    (sla : SlaPolicy) (now : ℕ)
    → sla.deadline_at ≡ none
    → (is_breached sla now ≡ false) × (get_remaining_ms sla now ≡ sla.window_hours * hour_ms)
unfolding is_breached get_remaining_ms
detached_never_breached sla now h = ground arith
