-- ===== src/Api/Analytics/Agreement.antt =====
-- The two statistics of a department: those of the repository and those of the dashboard's route.
use campusops.Common.{ℕ, ◌+◌, ◌≡◌, refl, String, List}
use campusops.Repository.Stats.{Span, stats_of}
use campusops.Api.Analytics.{numbers_of, tally, no_sums}
use campusops.Api.Analytics.Refresh.{Distinct, count_of-sum_of, tally-counted, sum_of}

-- On the same groups of incidents, one for each status, the repository and the route count the
-- same open, escalated and running incidents, while the repository counts those that are closed
-- among the resolved ones and the route counts them nowhere.
pub stats-numbers :
    (groups : List (String × ℕ)) (all escalated : ℕ) (spans : List Span)
    → Distinct groups
    → let stats = stats_of groups all escalated spans in
      let numbers = numbers_of (tally no_sums groups) escalated in
      (stats.total_open ≡ numbers.total_open)
      × (stats.total_in_progress ≡ numbers.total_in_progress)
      × (stats.total_escalated ≡ numbers.total_escalated)
      × (stats.total_resolved ≡ numbers.total_resolved + sum_of "CLOSED" groups)
unfolding stats_of numbers_of
stats-numbers groups all escalated spans d =
    rw
      (
        count_of-sum_of "OPEN" groups d,
        count_of-sum_of "IN_PROGRESS" groups d,
        count_of-sum_of "RESOLVED" groups d,
        count_of-sum_of "ESCALATED" groups d,
        count_of-sum_of "CLOSED" groups d,
        tally-counted groups,
      )
      (refl, refl, refl, refl)
