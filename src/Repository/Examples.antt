-- ===== src/Repository/Examples.antt =====
-- The repository's theorems at concrete inputs, on a table of one row.
use campusops.Common.{◌≡◌, refl, String, false, Option, none, some, str_eq}
use campusops.Sla.{window_of}
use campusops.Incident.{Incident, World}
use campusops.Incident.Calls.{succeeds, outcome, after, assign_call}
use campusops.Samples.{start, leaking_tap, four_hours}
use campusops.Repository.{Row, to_columns, to_document, to_entity, save}
use campusops.Repository.Reload.{IsStorable, reloaded, reload_same_calls}
use campusops.Repository.Samples.{
  tap_row, nobody, write, one_row, row_at, no_users, one_row-Answers,
}
use campusops.Repository.Store.{Shows, find_by_id-save}

tap_stored : IsStorable leaking_tap four_hours
unfolding window_of
tap_stored = record {
  numbered = refl;
  located = ("A", refl);
  fits = refl;
  policy = refl;
  same_priority = refl;
  window = refl;
}

abbrev stored_tap : Row
stored_tap = record {
  id = "I1";
  creator_id = "U1";
  columns = to_columns leaking_tap;
  assigned_to = none;
}

abbrev read_back : World
read_back = record start { incident = (to_entity nobody stored_tap).incident }

reload_same_calls_example :
    (succeeds (outcome (assign_call 5 0) read_back) ≡ succeeds (outcome (assign_call 5 0) start))
    × ((after (assign_call 5 0) read_back).incident.state
        ≡ (after (assign_call 5 0) start).incident.state)
reload_same_calls_example =
    reload_same_calls nobody (assign_call 5 0) leaking_tap four_hours stored_tap read_back start
      tap_stored refl refl refl (λ r. refl)

edited : Incident
edited = record leaking_tap { duplicate_count = 1 }

edited-IsStorable : IsStorable edited four_hours
unfolding edited window_of
edited-IsStorable = record {
  numbered = refl;
  located = ("A", refl);
  fits = refl;
  policy = refl;
  same_priority = refl;
  window = refl;
}

abbrev after_save : Row
after_save = write (to_columns edited) tap_row

find_by_id-save_example :
    (◌≡◌ {A = String} "I1" "I1")
    × Shows one_row row_at no_users nobody after_save "I1" (some (reloaded "I1" none edited))
    × ((k : String) (o : Option Incident)
        → str_eq k "I1" ≡ false
        → Shows one_row row_at no_users nobody tap_row k o
        → Shows one_row row_at no_users nobody after_save k o)
unfolding save edited to_columns to_document
find_by_id-save_example =
    find_by_id-save one_row row_at no_users nobody one_row-Answers edited four_hours "I1" "I1"
      tap_row after_save tap_row refl refl edited-IsStorable refl refl refl
