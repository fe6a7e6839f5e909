-- ===== src/CachingProxy.antt =====
-- infrastructure/repositories/CachingIncidentProxy.js, and the CacheInvalidator of
-- domain/observers/observers.js: the cache in front of the dashboard's numbers.
-- Redis is a parameter, and so is what `JSON` makes of the numbers. The write that is not awaited is
-- read as done before the method returns.
pub mod Coherence
mod Examples
use Prim.Native.String.{◌++◌ as ◌+++◌}
use campusops.Common.{ℕ, String, Option, none, some, str_eq, if◌then◌else◌}
use campusops.Common.Exec.{Exec, Result, ok, err, pure, ◌>>=◌}
use campusops.Errors.{Thrown}
use campusops.Service.{IncidentRepo}

-- The commands of the client that are used; each may fail.
pub record Redis (S : Type 0) : Type 0 where
  pub get : String → Exec S Thrown (Option String)
  pub setex : String → ℕ → String → Exec S Thrown (Unit {0})
  pub del : String → Exec S Thrown ℕ

pub record Json (A : Type 0) : Type 0 where
  pub stringify : A → String
  pub parse : String → Result Thrown A

-- The repository that the proxy wraps, which also answers for it: what is passed on, and the method
-- that is cached.
pub record StatsRepo (S A : Type 0) : Type 0 where
  pub repo : IncidentRepo S
  pub get_dashboard_stats : String → Exec S Thrown A

abbrev pub dashboard_stats_ttl_seconds : ℕ
dashboard_stats_ttl_seconds = 300

unfoldable pub dept_stats_key : String → String
dept_stats_key dept_id = "cache:dashboard:dept:" +++ (dept_id +++ ":stats")

abbrev pub global_stats_key : String
global_stats_key = "cache:dashboard:global:stats"

abbrev pub parsed : {A : Type 0} → Result Thrown A → Option A
parsed (ok a) = some a
parsed (err e) = none

-- What the `try` around the cache read leaves: the value of a hit, or nothing.
unfoldable pub hit : {A : Type 0} → Json A → Result Thrown (Option String) → Option A
hit json (ok (some v)) = parsed (json.parse v)
hit json (ok none) = none
hit json (err e) = none

module _ {S A : Type 0} (redis : Redis S) (json : Json A) where
  -- The result of a command whose failure is swallowed.
  abbrev pub swallow : {B : Type 0} → Exec S Thrown B → S → S
  swallow m s = (m s).1

  unfoldable pub store_stats : String → A → Exec S Thrown A
  store_stats key stats s =
      (ok stats, swallow (redis.setex key dashboard_stats_ttl_seconds (json.stringify stats)) s)

  unfoldable pub answer : StatsRepo S A → String → Option A → Exec S Thrown A
  answer real dept_id none =
      real.get_dashboard_stats dept_id >>= store_stats (dept_stats_key dept_id)
  answer real dept_id (some stats) = pure stats

  -- `getDashboardStats(deptId)`
  unfoldable pub cached_stats : StatsRepo S A → String → Exec S Thrown A
  cached_stats real dept_id s =
      let (r, t) = redis.get (dept_stats_key dept_id) s in answer real dept_id (hit json r) t

  -- The object that the services hold in place of the repository.
  abbrev pub proxy : StatsRepo S A → StatsRepo S A
  proxy real = record { repo = real.repo; get_dashboard_stats = cached_stats real }

  -- `invalidate(deptId)`: both deletions run, whether they fail or not.
  unfoldable pub invalidate : String → Exec S Thrown (Unit {0})
  invalidate dept_id s =
      (ok tt, swallow (redis.del global_stats_key) (swallow (redis.del (dept_stats_key dept_id)) s))

  -- `CacheInvalidator.handle(eventType, payload)`, on the department of the payload's incident
  unfoldable pub clear_dashboards : Option String → Exec S Thrown (Unit {0})
  unfolding invalidate
  clear_dashboards none = pure tt
  clear_dashboards (some dept_id) = if str_eq dept_id "" then pure tt else invalidate dept_id
