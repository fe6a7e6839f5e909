-- ===== src/Publisher/Examples.antt =====
-- The publisher with the observers that are wired at start-up.
use campusops.Common.{ℕ, ◌+◌, ◌≡◌, refl, String}
use campusops.Common.Exec.{Exec, ok, err}
use campusops.Errors.{Thrown, plain_error}
use campusops.Publisher.{Observer, email_notifier, publish, wire_observers}
use campusops.Publisher.Delivery.{publish_isolated}

-- Every observer counts a call; the mailer then fails, or does not.
abbrev smtp_down : Observer → String → ℕ → Exec ℕ Thrown (Unit {0})
smtp_down email_notifier type payload s = (err (plain_error "SMTP"), s + payload)
smtp_down _ type payload s = (ok tt, s + payload)

abbrev smtp_up : Observer → String → ℕ → Exec ℕ Thrown (Unit {0})
smtp_up o type payload s = (ok tt, s + payload)

same_writes : (o : Observer) (s : ℕ) → (smtp_down o "INCIDENT_RESOLVED" 1 s).1 ≡ s + 1
same_writes email_notifier s = refl
same_writes _ s = refl

publish_isolated_example :
    (publish smtp_down "INCIDENT_RESOLVED" 1 wire_observers 0).1
    ≡ (publish smtp_up "INCIDENT_RESOLVED" 1 wire_observers 0).1
publish_isolated_example =
    publish_isolated "INCIDENT_RESOLVED" 1 smtp_down smtp_up same_writes wire_observers 0
