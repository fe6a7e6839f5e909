-- ===== src/Api/Departments/Examples.antt =====
-- A request to assign an open incident of a department that assigns by hand.
use campusops.Common.{
  String, Bool, false, Option, ap, sym, str_eq, str_eq_iff, if◌then◌else◌, ℕ, ◌+◌, ◌≡◌, refl, true,
  none, some, [], ◌∷◌,
}
use campusops.Common.Exec.{Result, ok, err}
use campusops.Errors.{Thrown, type_error}
use campusops.Incident.{World, Event}
use campusops.Strategy.{Department}
use campusops.Service.{Loaded, IncidentRepo, DepartmentRepo, is_assignable}
use campusops.Samples.{leaking_tap, day_worker}
use campusops.Controller.{post_assign}
use campusops.Api.Departments.{DepartmentClient, updated, update_strategy}
use campusops.Api.Departments.Manual.{HoldsStrategy, update_strategy-post_assign}

abbrev by_hand : Department
by_hand = record {
  id = "D1";
  name = "Works";
  assignment_strategy = "MANUAL";
  round_robin_index = none;
}

-- The one department has its strategy from the start, and an update can only set it again.
abbrev written : Bool → ℕ → Result Thrown Department × ℕ
written b s = if b then (ok by_hand, s + 1) else (err type_error, s)

abbrev one : DepartmentClient ℕ
one = record {
  find_many = λ s. (ok (by_hand ∷ []), s);
  taken = λ n c s. (ok true, s);
  create = λ d s. (ok by_hand, s);
  update_strategy = λ id k s. written (str_eq k "MANUAL") s;
}

abbrev tap : Loaded
tap = record { incident = leaking_tap; assignee = day_worker "S0" 2 }

abbrev repo : IncidentRepo ℕ
repo = record {
  queries = record {
    find_duplicates = λ l c h s. (ok none, s);
    increment_duplicate_count = λ i s. (ok tt, s);
    count_recent_by_user = λ u w s. (ok 0, s);
  };
  find_by_id = λ id s. (ok (some tap), s);
  save = λ i s. (ok "I1", s + 1);
}

abbrev works : DepartmentRepo ℕ
works = record {
  find_by_id = λ id s. (ok (some by_hand), s);
  find_eligible_staff = λ id c s. (ok (day_worker "S1" 0 ∷ []), s);
}

abbrev silent : Event → World → ℕ → World × ℕ
silent e w s = (w, s)

abbrev utc : ℕ → ℕ
utc t = t

abbrev strategy_of : ℕ → String → Option String
strategy_of s id = some "MANUAL"

set_again :
    (strategy : String) (b : Bool) (d : Department) (s t : ℕ)
    → str_eq strategy "MANUAL" ≡ b
    → written b s ≡ (ok d, t)
    → ◌≡◌ {A = Option String} (some "MANUAL") (some strategy)
set_again strategy true d s t e h = ap (λ x. some x) (sym ((str_eq_iff strategy "MANUAL").0 e))
set_again strategy false d s t e h = cc

works-HoldsStrategy : HoldsStrategy one repo works silent utc 50 strategy_of
works-HoldsStrategy = record {
  set = λ id strategy d s t h. set_again strategy (str_eq strategy "MANUAL") d s t refl h;
  shown = λ id d s t h. let same : by_hand ≡ d = cc in ap (λ x. some x.assignment_strategy) same;
  looked = λ i id o s t h. refl;
}

update_strategy-post_assign_example :
    (update_strategy one "D1" (some "MANUAL") 4 ≡ (ok (updated by_hand), 5))
    × ((post_assign repo works silent utc 50 "I1" 9).0.status ≡ 500)
    × ((post_assign repo works silent utc 50 "I1" 9).1 ≡ 9)
unfolding is_assignable
update_strategy-post_assign_example =
    update_strategy-post_assign one repo works silent utc 50 strategy_of works-HoldsStrategy "D1"
      "I1" by_hand by_hand tap (day_worker "S1" 0 ∷ []) 4 5 9 9 9 9 refl refl refl refl refl refl
      refl
