-- ===== src/Api/Analytics/Examples.antt =====
-- The job that refreshes the dashboard, over a cache of one entry.
use campusops.Common.{ℕ, ◌≡◌, refl, String, Option, none, some, List, [], ◌∷◌}
use campusops.Common.Exec.{ok}
use campusops.Api.Analytics.{Dashboard, compute, Body, refreshed, Aggregates, Cache, get_dashboard}
use campusops.Api.Analytics.Refresh.{
  KeepsBody, IsReading, refresh_dashboard, refresh_dashboard-get_dashboard,
}

abbrev Entry : Type 0
Entry = Option (Body ℕ ℕ)

abbrev groups : List (String × ℕ)
groups = ("OPEN", 2) ∷ ("CLOSED", 1) ∷ ("RESOLVED", 1) ∷ []

abbrev queries : Aggregates ℕ ℕ Entry
queries = record {
  by_status = λ d s. (ok groups, s);
  by_category = λ d s. (ok [], s);
  by_priority = λ d s. (ok [], s);
  breaches = λ d s. (ok 1, s);
  recent = λ d s. (ok [], s);
  average = λ d s. (ok none, s);
}

abbrev entry : Cache ℕ ℕ Entry
entry = record { get = λ k s. (ok s, s); set = λ k b ttl s. (ok tt, some b) }

entry-KeepsBody : KeepsBody queries entry
entry-KeepsBody k b ttl s t h = let same : some b ≡ t = cc in (t, rw (← same) refl)

abbrev all_groups : Entry → Option String → List (String × ℕ)
all_groups s d = groups

abbrev one_breach : Entry → Option String → ℕ
one_breach s d = 1

queries-IsReading : IsReading queries entry all_groups one_breach
queries-IsReading = record {
  grouped = λ d s. refl;
  breached = λ d s. refl;
  categories = λ d s. ([], refl);
  priorities = λ d s. ([], refl);
  recents = λ d s. ([], refl);
  averages = λ d s. (none, refl);
  cached = λ k b ttl s t h. (refl, refl);
}

abbrev stored : Entry
stored = (refresh_dashboard queries entry 7 none none).1

refresh_dashboard-get_dashboard_example :
    (d : Dashboard ℕ ℕ) × (compute queries none stored ≡ (ok d, stored))
    × ((get_dashboard queries entry none stored).0 ≡ ok (refreshed d.numbers 7))
unfolding refresh_dashboard
refresh_dashboard-get_dashboard_example =
    refresh_dashboard-get_dashboard queries entry all_groups one_breach queries-IsReading
      entry-KeepsBody 7 none none stored ((refl, (refl, tt)), ((refl, tt), (tt, tt))) refl
