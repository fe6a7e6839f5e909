-- ===== src/Incident/Examples.antt =====
-- Runs of an incident, and the theorems of this component at concrete inputs.
use campusops.Common.{◌≡◌, refl, true, none, some, List, [], ◌∷◌, if◌then◌else◌}
use campusops.Common.Int.{pos, incr}
use campusops.Common.Text.{codes, trim}
use campusops.Samples.{start}
use campusops.Incident.{in_progress_state, reopened_state, points}
use campusops.Incident.Calls.{
  Call, assign_call, resolve_call, feedback_call, perform, succeeds, after, outcome, perform_all,
}
use campusops.Incident.Lifecycle.{perform_exact}
use campusops.Incident.Invariant.{IsSound, perform_all-IsSound}
use campusops.Incident.Workload.{perform-task_counts}

abbrev repair : List Call
repair =
    assign_call 10 0
    ∷ resolve_call 20 (some (codes "  replaced the washer ")) (some "url")
    ∷ feedback_call 30 (record { score = points 2; comment = none })
    ∷ []

repair_reopens : (perform_all repair start).incident.state ≡ reopened_state
unfolding perform_all perform trim
repair_reopens = refl

abbrev assign_first : Call
assign_first = assign_call 10 0

perform_exact_example :
    (succeeds (outcome assign_first start) ≡ true)
    × ((after assign_first start).incident.state ≡ in_progress_state)
perform_exact_example = perform_exact assign_first start

perform_all-IsSound_example : IsSound (perform_all repair start).incident
perform_all-IsSound_example =
    perform_all-IsSound repair start (record { log_agrees = refl; fields = tt })

perform-task_counts_example :
    ((after assign_first start).staff 0).active_task_count
    ≡ (if succeeds (outcome assign_first start) then incr (pos 2) else pos 2)
perform-task_counts_example = perform-task_counts assign_first start 0
