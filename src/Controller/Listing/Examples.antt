-- ===== src/Controller/Listing/Examples.antt =====
-- The pages of a list of one incident.
use campusops.Common.{Bool, true, some, filter, str_eq, String, none, List, take, drop, length}
use campusops.Common.Exec.{ok}
use campusops.Common.Int.{pos}
use campusops.Common.Text.{codes, text_eq}
use campusops.Repository.{Row}
use campusops.Repository.Listing.{JsNumber, whole, ListClient}
use campusops.Controller.Listing.{Query}
use campusops.Controller.Listing.Pages.{Reading, meets}

abbrev any_value : String → Row → Bool
any_value x r = true

abbrev reading : Reading
reading = record {
  status = λ x r. text_eq r.columns.status (codes x);
  priority = any_value;
  category = any_value;
  department_id = λ x r. str_eq r.columns.department_id x;
  assigned_to_id = any_value;
  location_block = λ x r. str_eq r.columns.location_block x;
  mentions = any_value;
  created_from = any_value;
  created_to = any_value;
  value = λ by r. r.id;
}

abbrev rows : List Row → List Row
rows s = s

abbrev sorted : String → String → List Row → List Row
sorted by order rs = rs

abbrev window : JsNumber → JsNumber → List Row → List Row
window (whole (pos k)) (whole (pos n)) s = take n (drop k s)
window k n s = s

abbrev shelf : ListClient (List Row)
shelf = record {
  find_rows = λ w by order k n s. (ok (window k n (filter (meets reading w) s)), s);
  count = λ w s. (ok (length (filter (meets reading w) s)), s);
}

abbrev plain : Query
plain = record {
  filters = record {
    status = some "OPEN";
    priority = none;
    category = none;
    department_id = none;
    assigned_to_id = none;
    block = none;
    search = none;
    created_after = none;
    created_before = none;
  };
  page = none;
  limit = none;
  sort_by = none;
  sort_order = none;
}
