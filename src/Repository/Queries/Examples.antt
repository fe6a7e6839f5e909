-- ===== src/Repository/Queries/Examples.antt =====
-- The queries of the validators over a table that holds one older incident of the reporter.
use campusops.Common.{
  ◌≡◌, ◌<◌, refl, Bool, true, false, Option, none, some, List, [], ◌∷◌, any, filter, length,
  if◌then◌else◌,
}
use campusops.Common.Exec.{Result, ok}
use campusops.Common.Text.{codes, trim}
use campusops.Errors.{Thrown}
use campusops.Incident.{Location}
use campusops.Validation.{Dto, Duplicate, validate, check, build_validation_chain, has_block}
use campusops.Repository.Queries.{
  IncidentColumns, QueryClient, meets_duplicate, meets_recent, find_duplicates,
  count_recent_by_user,
}
use campusops.Repository.Queries.Gate.{IsTable, is_repeat, is_recent_of, chain_keeps_out}

abbrev block_a : Location
block_a = record { block = some "A"; room = none; floor = none; description = none }

abbrev report : Dto
report = record {
  title = codes "Tap";
  description = codes "It leaks";
  priority = some "HIGH";
  category = some "MAINTENANCE";
  location = some block_a;
  evidence_photos = [];
  department_id = "D1";
  estimated_duration_hours = none;
}

abbrev old_fault : IncidentColumns
old_fault = record {
  id = "I1";
  incident_number = "INC-1";
  creator_id = "U1";
  location_block = "A";
  location_room = none;
  category = "MAINTENANCE";
  status = "OPEN";
  created_at = 5;
}

abbrev found : Bool → Option Duplicate
found b =
    if b then some (record { id = "I1"; incident_number = "INC-1"; status = "OPEN" }) else none

abbrev table : QueryClient (List IncidentColumns)
table = record {
  find_first = λ w s. (ok (found (any (meets_duplicate w) s)), s);
  increment = λ id s. (ok tt, s);
  count = λ w s. (ok (length (filter (meets_recent w) s)), s);
}

abbrev rows : List IncidentColumns → List IncidentColumns
rows s = s

none_found :
    (b : Bool) (s t : List IncidentColumns)
    → ◌≡◌ {A = Result Thrown (Option Duplicate) × List IncidentColumns}
        (ok (found b), s)
        (ok none, t)
    → (b ≡ false) × (t ≡ s)
none_found true s t h = cc
none_found false s t h = (refl, cc)

table-IsTable : IsTable table rows
table-IsTable = record {
  searched = λ w s t h. none_found (any (meets_duplicate w) s) s t h;
  counted = λ w s n t h. (cc, cc);
}

chain_keeps_out_example :
    (any (is_repeat 90000000 block_a "MAINTENANCE") (old_fault ∷ []) ≡ false)
    × (length (filter (is_recent_of 90000000 "U1") (old_fault ∷ [])) < 5)
    × (◌≡◌ {A = List IncidentColumns} (old_fault ∷ []) (old_fault ∷ []))
unfolding trim validate check build_validation_chain has_block find_duplicates count_recent_by_user
    meets_duplicate meets_recent
chain_keeps_out_example =
    chain_keeps_out table-IsTable 90000000 "U1" report report block_a "MAINTENANCE" (old_fault ∷ [])
      (old_fault ∷ []) refl refl refl refl
