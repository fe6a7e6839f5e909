-- ===== src/Repository/Stats.antt =====
-- infrastructure/repositories/IncidentRepository.js: getDashboardStats, the numbers of a department.
-- A quotient is kept with what is divided and the digits that it is rounded to.
use campusops.Common.{
  ℕ, ◌+◌, String, Option, none, some, List, [], ◌∷◌, ltb, or_default, if◌then◌else◌,
}
use campusops.Common.Exec.{Exec, pure, ◌>>=◌}
use campusops.Common.Text.{count_of}
use campusops.Errors.{Thrown}

pub data Rounded : Type 0 where
  zero_rate : Rounded
  rounded : (dividend divisor digits : ℕ) → Rounded

-- `createdAt` and `resolvedAt` of a resolved incident
pub record Span : Type 0 where
  pub created_at : ℕ
  pub resolved_at : ℕ

-- The mean of `resolvedAt - createdAt` in hours, rounded to two digits: the two sums and the count.
pub record Average : Type 0 where
  pub resolved_sum : ℕ
  pub created_sum : ℕ
  pub count : ℕ

pub record DashboardStats : Type 0 where
  pub total_open : ℕ
  pub total_in_progress : ℕ
  pub total_resolved : ℕ
  pub total_escalated : ℕ
  pub sla_breach_rate : Rounded
  pub avg_resolution_hours : Option Average

-- The queries of one department.
pub record StatsClient (S : Type 0) : Type 0 where
  pub by_status : String → Exec S Thrown (List (String × ℕ))
  pub count_all : String → Exec S Thrown ℕ
  pub count_escalated : String → Exec S Thrown ℕ
  pub resolved_spans : String → Exec S Thrown (List Span)

unfoldable pub sum_spans : List Span → Average
sum_spans [] = record { resolved_sum = 0; created_sum = 0; count = 0 }
sum_spans (s ∷ ss) =
    let rest = sum_spans ss in
    record {
      resolved_sum = s.resolved_at + rest.resolved_sum;
      created_sum = s.created_at + rest.created_sum;
      count = 1 + rest.count;
    }

unfoldable pub average_of : List Span → Option Average
average_of [] = none
average_of (s ∷ ss) = some (sum_spans (s ∷ ss))

unfoldable pub stats_of : List (String × ℕ) → (all escalated : ℕ) → List Span → DashboardStats
unfolding average_of sum_spans
stats_of groups all escalated spans = record {
  total_open = or_default (count_of "OPEN" groups) 0;
  total_in_progress = or_default (count_of "IN_PROGRESS" groups) 0;
  total_resolved =
      or_default (count_of "RESOLVED" groups) 0 + or_default (count_of "CLOSED" groups) 0;
  total_escalated = or_default (count_of "ESCALATED" groups) 0;
  sla_breach_rate = if ltb 0 all then rounded escalated all 4 else zero_rate;
  avg_resolution_hours = average_of spans;
}

-- `getDashboardStats(deptId)`
unfoldable pub get_dashboard_stats :
    {S : Type 0} → StatsClient S → String → Exec S Thrown DashboardStats
unfolding stats_of
get_dashboard_stats client dept = do
  groups ← client.by_status dept
  all ← client.count_all dept
  escalated ← client.count_escalated dept
  spans ← client.resolved_spans dept
  pure (stats_of groups all escalated spans)
