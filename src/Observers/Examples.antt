-- ===== src/Observers/Examples.antt =====
-- The theorems on the observers at concrete inputs.
use campusops.Common.{ℕ, ◌+◌, ◌≡◌, refl, false, none, some}
use campusops.Common.Exec.{ok}
use campusops.User.{admin}
use campusops.Realtime.{SocketUser}
use campusops.Incident.{Incident, is_role}
use campusops.Commands.Alert.{in_department}
use campusops.Samples.{leaking_tap, four_hours}
use campusops.Sla.{window_of}
use campusops.Factory.Built.{IsFresh}
use campusops.Observers.{Contact, Payload, notify_sockets, socket_event}
use campusops.Observers.Audience.{reaches, is_key, concerned, notify_sockets-reaches}
use campusops.Observers.Hotspot.{Counters, Counts, report_all, alerts, report_all-alerts}

abbrev dean : SocketUser
dean = record { id = "A1"; name = "Dean"; role = admin; department_id = none }

abbrev worker : Contact
worker = record {
  id = some "S0";
  name = some "Sam";
  email = some "sam@college.edu";
  pref_email = none;
}

abbrev report : Payload
report = record { incident = some leaking_tap; staff = none; rating = none }

abbrev handover : Payload
handover = record { incident = some leaking_tap; staff = some worker; rating = none }

notify_sockets-reaches_example :
    (reaches dean (notify_sockets "INCIDENT_CREATED" report) ≡ in_department none "D1")
    × (reaches dean (notify_sockets "INCIDENT_ASSIGNED" handover) ≡ is_key "A1" (some "S0"))
    × (reaches dean (notify_sockets "INCIDENT_RESOLVED" report) ≡ concerned dean leaking_tap)
    × (reaches dean (notify_sockets "INCIDENT_REOPENED_BY_FEEDBACK" report)
        ≡ concerned dean leaking_tap)
    × (reaches dean (notify_sockets "INCIDENT_REASSIGNED" report) ≡ concerned dean leaking_tap)
    × (reaches dean (notify_sockets "INCIDENT_ESCALATED" report) ≡ is_role admin admin)
    × (reaches dean (notify_sockets "INCIDENT_CLOSED" report) ≡ false)
unfolding socket_event
notify_sockets-reaches_example =
    notify_sockets-reaches dean report handover leaking_tap worker "INCIDENT_CLOSED" refl refl refl

-- A Redis with one counter, whatever the key.
abbrev one_counter : Counters ℕ
one_counter = record { incr = λ k s. (ok (s + 1), s + 1); expire = λ k n s. (ok tt, s) }

one_counter-Counts : Counts one_counter (λ s k. s)
one_counter-Counts = record {
  increments = λ k s. refl;
  grows = λ k s. refl;
  expires = λ k n s. refl;
  stays = λ k n s. refl;
}

report_all-alerts_example : alerts (report_all one_counter 5 leaking_tap 0).0 ≡ 3
report_all-alerts_example =
    report_all-alerts one_counter (λ s k. s) one_counter-Counts 5 leaking_tap "A" 0 refl refl

abbrev new_tap : Incident
new_tap = record leaking_tap { sla = some (record four_hours { deadline_at = some 14400100 }) }

new_tap-IsFresh : IsFresh new_tap 100
unfolding window_of
new_tap-IsFresh = record {
  sound = record { log_agrees = refl; fields = tt };
  is_open = refl;
  unassigned = refl;
  no_job = refl;
  deadline = (record four_hours { deadline_at = some 14400100 }, refl, refl, refl);
}
