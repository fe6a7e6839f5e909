-- ===== src/SlaWorker/Examples.antt =====
-- The worker's theorems at concrete inputs.
use campusops.Common.{◌≡◌, refl, true, some, none}
use campusops.Common.Exec.{ok}
use campusops.Validation.{IncidentQueries}
use campusops.Incident.{World, Event, escalated_state}
use campusops.Incident.Names.{state_map}
use campusops.Incident.States.{escalate}
use campusops.Repository.{Row, to_columns, to_entity, save, find_by_id}
use campusops.Service.{Loaded, IncidentRepo}
use campusops.Samples.{four_hours, leaking_tap}
use campusops.Repository.Samples.{tap_row, nobody, one_row, row_at, no_users, one_row-Answers}
use campusops.SlaWorker.{process, reason_of}
use campusops.SlaWorker.Attempts.{is_pending, escalated, announced_after, process_exact}
use campusops.SlaWorker.Twice.{repository, process_twice}

abbrev no_queries : IncidentQueries Row
no_queries = record {
  find_duplicates = λ l c h s. (ok none, s);
  increment_duplicate_count = λ i s. (ok tt, s);
  count_recent_by_user = λ u w s. (ok 0, s);
}

abbrev silent : Event → World → Row → World × Row
silent e w s = (w, s)

first_run : Row
first_run =
    (process (repository one_row no_queries silent row_at no_users nobody) silent 50 "I1" 1
      tap_row).1

abbrev tap : Loaded
tap = record { incident = leaking_tap; assignee = nobody }

abbrev repo : IncidentRepo Row
repo = record {
  queries = no_queries;
  find_by_id = λ id s. (ok (some tap), s);
  save = λ i s. (ok "I1", s);
}

process_exact_example :
    (process repo silent 50 "I1" 1 tap_row
      ≡ announced_after repo silent
          (reason_of 1 leaking_tap)
          (escalated 50 1 tap)
          (repo.save (escalated 50 1 tap).incident tap_row))
    × (is_pending leaking_tap.state ≡ true
        → ((escalated 50 1 tap).incident.state ≡ escalated_state)
          × ((escalated 50 1 tap).incident.sla ≡ some (record four_hours { is_escalated = true })))
process_exact_example = process_exact repo silent 50 1 "I1" tap four_hours tap_row tap_row refl refl

process_twice_example :
    process (repository one_row no_queries silent row_at no_users nobody) silent 90 "I1" 1 first_run
    ≡ (ok tt, first_run)
unfolding first_run process to_columns find_by_id to_entity state_map escalate save
process_twice_example =
    process_twice one_row no_queries silent row_at no_users nobody one_row-Answers 50 1 90 1 "I1"
      tap_row tap_row first_run (λ e w u k. refl) refl refl refl refl
