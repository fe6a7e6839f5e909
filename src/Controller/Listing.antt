-- ===== src/Controller/Listing.antt =====
-- api/controllers/incidentController.js: the list of incidents by pages, `listIncidents`. The service
-- and the proxy hand the query on to the repository as it is.
mod Examples
pub mod Pages
use campusops.Common.{ℕ, String, Option, none, some, List, [], or_default}
use campusops.Common.Exec.{Exec, Result, ok, err}
use campusops.Common.Int.{pos}
use campusops.Common.Text.{or_null}
use campusops.Errors.{Thrown}
use campusops.User.{Staff}
use campusops.Middleware.Errors.{error_handler, error_value}
use campusops.Service.{Loaded}
use campusops.Repository.Listing.{
  JsNumber, whole, Filters, Pagination, ListClient, Found, find_many,
}

-- The query string; `page` and `limit` are absent also where they are empty.
pub record Query : Type 0 where
  pub filters : Filters
  pub page : Option JsNumber
  pub limit : Option JsNumber
  pub sort_by : Option String
  pub sort_order : Option String

pub record Meta : Type 0 where
  pub total : ℕ
  pub page : JsNumber
  pub limit : JsNumber

pub data ListResponse : Type 0 where
  listed : List Loaded → Meta → ListResponse
  list_failed : (status : ℕ) → ListResponse

unfoldable pub answer_list : JsNumber → JsNumber → Result Thrown Found → ListResponse
answer_list page limit (ok f) =
    listed f.incidents (record { total = f.total; page = page; limit = limit })
answer_list page limit (err e) = list_failed (error_handler (error_value e)).status

module _ {S : Type 0} (client : ListClient S) (nobody : Staff) where
  -- `listIncidents`
  unfoldable pub list_incidents : Query → S → ListResponse × S
  unfolding answer_list find_many
  list_incidents q s =
      let page = or_default q.page (whole (pos 1)) in
      let limit = or_default q.limit (whole (pos 20)) in
      let (r, t) =
        find_many client nobody q.filters
          (record {
            page = some page;
            limit = some limit;
            sort_by = or_null q.sort_by;
            sort_order = or_null q.sort_order;
          })
          s in
      (answer_list page limit r, t)
