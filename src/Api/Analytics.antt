-- ===== src/Api/Analytics.antt =====
-- api/controllers/analyticsController.js: the numbers of the dashboard, and the copy in Redis that
-- jobs/workers/analytics.worker.js refreshes. `R` is the rows of the recent activity and `H` the
-- average of the database, which both pass through.
mod Examples
pub mod Agreement
pub mod Refresh
use campusops.Common.{
  ℕ, ◌+◌, Bool, true, false, String, Option, none, some, List, [], ◌∷◌, str_eq, ltb, or_default,
  if◌then◌else◌,
}
use campusops.Common.Exec.{Exec, Result, ok, err, pure, ◌>>=◌}
use campusops.Common.Text.{or_null}
use campusops.Errors.{Thrown}

-- `slaBreachRate`: a quotient, or zero where there is nothing to divide by.
pub data Rate : Type 0 where
  zero_rate : Rate
  ratio : (breaches total : ℕ) → Rate

pub record Numbers : Type 0 where
  pub total_open : ℕ
  pub total_in_progress : ℕ
  pub total_resolved : ℕ
  pub total_escalated : ℕ
  pub sla_breach_rate : Rate

pub record Dashboard (R H : Type 0) : Type 0 where
  pub numbers : Numbers
  pub avg_resolution_hours : Option H
  pub by_category : List (String × ℕ)
  pub by_priority : List (String × ℕ)
  pub recent_activity : List R

-- What the cache may hold under a key of the dashboard: the controller's object or the worker's.
pub data Body (R H : Type 0) : Type 0 where
  dashboard : Dashboard R H → Body R H
  refreshed : Numbers → (cached_at : ℕ) → Body R H

pub data CacheKey : Type 0 where
  dept_key : String → CacheKey
  campus_key : CacheKey

-- `departmentId ? … : …`
unfoldable pub cache_key : Option String → CacheKey
cache_key none = campus_key
cache_key (some d) = if str_eq d "" then campus_key else dept_key d

-- The queries; a department that is `none` stands for the whole campus.
pub record Aggregates (R H S : Type 0) : Type 0 where
  pub by_status : Option String → Exec S Thrown (List (String × ℕ))
  pub by_category : Option String → Exec S Thrown (List (String × ℕ))
  pub by_priority : Option String → Exec S Thrown (List (String × ℕ))
  pub breaches : Option String → Exec S Thrown ℕ
  pub recent : Option String → Exec S Thrown (List R)
  pub average : Option String → Exec S Thrown (Option H)

-- Redis with JSON: `get` is an error also where the text that it holds is no JSON.
pub record Cache (R H S : Type 0) : Type 0 where
  pub get : CacheKey → Exec S Thrown (Option (Body R H))
  pub set : CacheKey → Body R H → (ttl : ℕ) → Exec S Thrown (Unit {0})

-- The five sums of the loop over the groups.
pub record Sums : Type 0 where
  pub open_sum : ℕ
  pub in_progress_sum : ℕ
  pub resolved_sum : ℕ
  pub escalated_sum : ℕ
  pub all_sum : ℕ

abbrev pub no_sums : Sums
no_sums = record {
  open_sum = 0;
  in_progress_sum = 0;
  resolved_sum = 0;
  escalated_sum = 0;
  all_sum = 0;
}

unfoldable pub add_group : Sums → String × ℕ → Sums
add_group c (status, n) =
    let t = record c { all_sum = c.all_sum + n } in
    if str_eq status "OPEN"
    then record t { open_sum = t.open_sum + n }
    else if str_eq status "IN_PROGRESS"
    then record t { in_progress_sum = t.in_progress_sum + n }
    else if str_eq status "RESOLVED"
    then record t { resolved_sum = t.resolved_sum + n }
    else if str_eq status "ESCALATED"
    then record t { escalated_sum = t.escalated_sum + n }
    else t

-- `statusAgg.forEach(…)`
unfoldable pub tally : Sums → List (String × ℕ) → Sums
unfolding add_group
tally c [] = c
tally c (g ∷ gs) = tally (add_group c g) gs

unfoldable pub rate : ℕ → ℕ → Rate
rate breaches total = if ltb 0 total then ratio breaches total else zero_rate

unfoldable pub numbers_of : Sums → ℕ → Numbers
unfolding rate
numbers_of c breaches = record {
  total_open = c.open_sum;
  total_in_progress = c.in_progress_sum;
  total_resolved = c.resolved_sum;
  total_escalated = c.escalated_sum;
  sla_breach_rate = rate breaches c.all_sum;
}

module _ {R H S : Type 0} (q : Aggregates R H S) where
  -- The queries, which run at once and change nothing, and the object that is made of them.
  unfoldable pub compute : Option String → Exec S Thrown (Dashboard R H)
  unfolding tally numbers_of
  compute dept = do
    groups ← q.by_status dept
    categories ← q.by_category dept
    priorities ← q.by_priority dept
    breaches ← q.breaches dept
    recent ← q.recent dept
    average ← q.average dept
    pure (record {
      numbers = numbers_of (tally no_sums groups) breaches;
      avg_resolution_hours = average;
      by_category = categories;
      by_priority = priorities;
      recent_activity = recent;
    })

  module _ (cache : Cache R H S) where
    -- A write that fails is logged and forgotten.
    keep : CacheKey → Body R H → Exec S Thrown (Body R H)
    keep key b s = let (r, t) = cache.set key b 120 s in (ok b, t)

    fresh : Option String → Exec S Thrown (Body R H)
    unfolding compute keep
    fresh dept = compute (or_null dept) >>= λ d. keep (cache_key dept) (dashboard d)

    -- What follows the attempt to read the cache; an error of it counts as a miss.
    answered : Option String → Result Thrown (Option (Body R H)) → Exec S Thrown (Body R H)
    unfolding fresh
    answered dept (ok (some b)) = pure b
    answered dept (ok none) = fresh dept
    answered dept (err e) = fresh dept

    -- `getDashboard`, with Redis: the body of the answer.
    unfoldable pub get_dashboard : Option String → Exec S Thrown (Body R H)
    unfolding answered cache_key
    get_dashboard dept s = let (r, t) = cache.get (cache_key dept) s in answered dept r t
