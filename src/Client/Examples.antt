-- ===== src/Client/Examples.antt =====
-- The theorems on the web client at concrete inputs.
use campusops.Common.{
  ◌≡◌, ◌≤◌, ◌<◌, ◌+◌, ◌↔◌, refl, true, false, Option, none, some, List, [], ◌∷◌, ◌++◌, is_some,
  String,
}
use campusops.Common.Exec.{Result, ok}
use campusops.Common.Text.{Text, codes}
use campusops.User.{security, admin}
use campusops.Sla.{SlaPolicy, is_breached, get_remaining_ms}
use campusops.Samples.{four_hours}
use campusops.Middleware.Auth.{Payload, Request}
use campusops.Realtime.{SocketUser}
use campusops.Client.Session.{
  Session, UserJson, SessionEvent, answered, reloaded, unauthorized, is_authenticated, auth_header,
  restore, run, empty_storage,
}
use campusops.Client.Session.Restored.{run_consistent}
use campusops.Client.PanicOverlay.{
  Overlay, OverlayEvent, can_acknowledge, react_all, clicked, request_succeeded,
  acknowledged_globally, panic_raised, acknowledge_once,
}
use campusops.Client.Countdown.{countdown, sla_breached, shown_ms, unit_ms, countdown_exact}

-- Users that are texts, written as they are with a mark in front.
abbrev marked : Text → Text
marked u = 1 ∷ u

unmarked : Text → Option (Option Text)
unmarked [] = none
unmarked (c ∷ u) = some (some u)

abbrev plain_json : UserJson Text
plain_json = record { stringify = marked; parse = unmarked }

abbrev day : List (SessionEvent plain_json)
day =
    answered (codes "t1") (codes "Asha")
    ∷ reloaded
    ∷ unauthorized
    ∷ answered (codes "t2") (codes "Ravi")
    ∷ []

run_consistent_example :
    let b = run plain_json day (restore plain_json empty_storage) in
    (is_authenticated b.session ≡ is_some b.session.user)
    × (is_some (auth_header b.storage) ≡ is_authenticated b.session)
    × (restore plain_json b.storage ≡ b)
unfolding unmarked
run_consistent_example =
    run_consistent plain_json day (λ u. (refl, refl)) (refl, (tt, (tt, (refl, tt))))

abbrev chief : SocketUser
chief = record { id = "A1"; name = "Chief"; role = admin; department_id = none }

abbrev at_desk : Session SocketUser
at_desk = record { user = some chief; token = some (codes "t"); is_loading = false }

abbrev claims : Payload
claims = record { id = "A1"; role = admin; department_id = none }

abbrev verify : Text → Result String Payload
verify token = ok claims

abbrev with_token : Request
with_token = record { auth_header = some (codes "Bearer " ++ codes "t"); user = none }

abbrev first_alert : Overlay
first_alert = record { panic_alert = some "I1"; ack_loading = false }

abbrev second_alert : List OverlayEvent
second_alert = request_succeeded ∷ acknowledged_globally "I1" ∷ panic_raised "I2" ∷ []

acknowledge_once_example :
    can_acknowledge security (react_all security (clicked ∷ second_alert) first_alert) ≡ false
unfolding can_acknowledge
acknowledge_once_example =
    acknowledge_once security first_alert second_alert refl (tt, (tt, (tt, tt)))

abbrev due : SlaPolicy
due = record four_hours { deadline_at = some 9000000 }

countdown_exact_example :
    ((countdown due.deadline_at 100000 ≡ sla_breached) ↔ (is_breached due 100000 ≡ true))
    × (is_breached due 100000 ≡ false
        → (shown_ms (countdown due.deadline_at 100000) ≤ get_remaining_ms due 100000)
          × (get_remaining_ms due 100000
              < shown_ms (countdown due.deadline_at 100000)
                + unit_ms (countdown due.deadline_at 100000)))
countdown_exact_example = countdown_exact due 9000000 100000 refl
