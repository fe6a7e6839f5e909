-- ===== src/Service/Examples.antt =====
-- The use cases over a repository that holds one incident and counts its saves.
use campusops.Common.{◌<◌, List, ℕ, ◌+◌, ◌≡◌, refl, String, Option, none, some, [], false}
use campusops.Common.Exec.{ok}
use campusops.Common.Text.{codes, trim}
use campusops.Incident.{
  Incident, World, Event, Rating, points, in_progress_state, resolved_state, reopened_state,
  incident_resolved, incident_reopened_by_feedback,
}
use campusops.Incident.States.{no_photo, note_too_short, resolve, receive_feedback}
use campusops.Samples.{four_hours, day_worker, leaking_tap}
use campusops.Validation.{IncidentQueries}
use campusops.Service.{
  Loaded, IncidentRepo, DepartmentRepo, loaded_world, act, announce, store, if_found, resolve_found,
  feedback_found, resolve_incident, submit_feedback, feedback_event,
}
use campusops.Validation.{
  validate, build_validation_chain, check, has_block, Dto, duplicate_window_hours, one_hour_ms,
  max_per_hour,
}
use campusops.Validation.Verdicts.{IsWellFormed, HasEvidence}
use campusops.Factory
use campusops.Factory.Built.{IsFresh}
use campusops.Service.{create_incident, build, store_new}
use campusops.Sla
use campusops.Service.Creation.{Created, create_incident_sound}
use campusops.Service.Outcomes.{Stored, resolve_incident_sound, submit_feedback_sound}

abbrev no_queries : IncidentQueries ℕ
no_queries = record {
  find_duplicates = λ l c h s. (ok none, s);
  increment_duplicate_count = λ i s. (ok tt, s);
  count_recent_by_user = λ u w s. (ok 0, s);
}

abbrev holding : Incident → IncidentRepo ℕ
holding i = record {
  queries = no_queries;
  find_by_id = λ id s. (ok (some (record { incident = i; assignee = day_worker "S0" 2 })), s);
  save = λ j s. (ok "I1", s + 1);
}

abbrev works : DepartmentRepo ℕ
works = record { find_by_id = λ id s. (ok none, s); find_eligible_staff = λ id c s. (ok [], s) }

abbrev silent : Event → World → ℕ → World × ℕ
silent e w s = (w, s)

abbrev at_work : Incident
at_work = record leaking_tap {
  state = in_progress_state;
  assigned_to = some 0;
  assigned_to_id = some "S0";
}

abbrev done : Incident
done = record at_work { state = resolved_state }

abbrev utc : ℕ → ℕ
utc t = t

abbrev washer : Option (List ℕ)
washer = some (codes "replaced the washer")

abbrev photo : Option String
photo = some "url"

abbrev poor : Rating
poor = record { score = points 1; comment = none }

abbrev repaired : World
repaired =
    (resolve 50 washer photo
      (loaded_world (record { incident = at_work; assignee = day_worker "S0" 2 }) [])).1

abbrev rated : World
rated =
    (receive_feedback 50 poor
      (loaded_world (record { incident = done; assignee = day_worker "S0" 2 }) [])).1

resolve_incident_sound_example :
    (l : Loaded) × (u : ℕ) × (w : World) × ((holding at_work).find_by_id "I1" 7 ≡ (ok (some l), u))
    × (resolve 50 washer photo (loaded_world l []) ≡ (ok tt, w))
    × (l.incident.state ≡ in_progress_state)
    × (no_photo photo ≡ false)
    × (note_too_short washer ≡ false)
    × (w.incident.state ≡ resolved_state)
    × Stored (holding at_work) works silent utc 50 incident_resolved w u repaired 8
unfolding resolve_incident if_found resolve_found act store announce resolve trim
resolve_incident_sound_example =
    resolve_incident_sound (holding at_work) works silent utc 50 "I1" washer photo repaired 7 8 refl

submit_feedback_sound_example :
    (l : Loaded) × (u : ℕ) × (w : World) × ((holding done).find_by_id "I1" 7 ≡ (ok (some l), u))
    × (receive_feedback 50 poor (loaded_world l []) ≡ (ok tt, w))
    × (l.incident.state ≡ resolved_state)
    × (w.incident.state ≡ reopened_state)
    × Stored (holding done) works silent utc 50 (incident_reopened_by_feedback poor) w u rated 8
unfolding submit_feedback if_found feedback_found act store announce receive_feedback feedback_event
submit_feedback_sound_example =
    submit_feedback_sound (holding done) works silent utc 50 "I1" poor rated 7 8 refl

abbrev report : Dto
report = record {
  title = codes "Tap";
  description = codes "It leaks";
  priority = some "HIGH";
  category = some "MAINTENANCE";
  location = some (record { block = some "A"; room = none; floor = none; description = none });
  evidence_photos = [];
  department_id = "D1";
  estimated_duration_hours = none;
}

abbrev reported : Incident
reported = record leaking_tap {
  location = record { block = some "A"; room = none; floor = none; description = none };
  sla = some (record four_hours { deadline_at = some 14400050 });
}

abbrev told : World
told = record { incident = reported; staff = λ r. day_worker "S0" 2; outbox = [] }

create_incident_sound_example :
    IsWellFormed report
    × HasEvidence report
    × ((u x : ℕ) × (no_queries.find_duplicates report.location report.category
            duplicate_window_hours 7
          ≡ (ok none, u))
        × ((n : ℕ) × (no_queries.count_recent_by_user "U1" one_hour_ms u ≡ (ok n, x))
            × (n < max_per_hour))
        × ((i : Incident) × (Factory.create "INC-1" report "U1" 50 ≡ ok i)
            × IsFresh i 50
            × Created (holding at_work) works silent utc 50 (day_worker "S0" 2) i x told 8))
unfolding create_incident validate build_validation_chain check has_block trim build Factory.create
    Sla.create store_new announce
create_incident_sound_example =
    create_incident_sound (holding at_work) works silent utc 50 (day_worker "S0" 2) "INC-1" "U1"
      report told 7 8 refl refl
