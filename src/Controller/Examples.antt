-- ===== src/Controller/Examples.antt =====
-- The route that resolves an incident, over a repository that holds one incident in progress.
use campusops.Common.{ℕ, ◌+◌, ◌≡◌, refl, false, Option, none, some, [], List}
use campusops.Common.Exec.{ok}
use campusops.Common.Text.{codes}
use campusops.Incident.{World, Event, in_progress_state}
use campusops.Samples.{leaking_tap, day_worker}
use campusops.Service.{Loaded, IncidentRepo, DepartmentRepo}
use campusops.Controller.{post_resolve}
use campusops.Controller.Resolution.{resolvable, status_by, post_resolve_lem}

abbrev at_work : Loaded
at_work = record {
  incident = record leaking_tap { state = in_progress_state };
  assignee = day_worker "S0" 2;
}

abbrev repo : IncidentRepo ℕ
repo = record {
  queries = record {
    find_duplicates = λ l c h s. (ok none, s);
    increment_duplicate_count = λ i s. (ok tt, s);
    count_recent_by_user = λ u w s. (ok 0, s);
  };
  find_by_id = λ id s. (ok (some at_work), s);
  save = λ i s. (ok "I1", s + 1);
}

abbrev works : DepartmentRepo ℕ
works = record { find_by_id = λ id s. (ok none, s); find_eligible_staff = λ id c s. (ok [], s) }

abbrev silent : Event → World → ℕ → World × ℕ
silent e w s = (w, s)

abbrev utc : ℕ → ℕ
utc t = t

abbrev washer : Option (List ℕ)
washer = some (codes "replaced the washer")

post_resolve_lem_example :
    ((post_resolve repo works silent utc 50 "I1" washer none 7).0.status
      ≡ status_by (resolvable 50 washer none (some at_work)))
    × (resolvable 50 washer none (some at_work) ≡ false
        → (post_resolve repo works silent utc 50 "I1" washer none 7).1 ≡ 7)
post_resolve_lem_example =
    post_resolve_lem repo works silent utc 50 "I1" washer none (some at_work) 7 7 refl
      (λ i x. ("I1", x + 1, refl))
