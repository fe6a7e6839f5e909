-- ===== src/Repository/Listing.antt =====
-- infrastructure/repositories/IncidentRepository.js: findMany, the list of incidents by pages.
-- The clauses of a query and its window are values; what the database finds for them is a parameter.
use campusops.Common.{ℕ, String, Option, List, map, or_default}
use campusops.Common.Exec.{Exec, pure, ◌>>=◌}
use campusops.Common.Int.{ℤ, pos, decr, min_ℕ, max_ℕ, times}
use campusops.Common.Text.{or_null}
use campusops.Errors.{Thrown}
use campusops.User.{Staff}
use campusops.Service.{Loaded}
use campusops.Repository.{Row, to_entity}

-- What `Number` makes of the text of a page or a limit; fractions are left out.
pub data JsNumber : Type 0 where
  nan : JsNumber
  whole : ℤ → JsNumber

pub record Filters : Type 0 where
  pub status : Option String
  pub priority : Option String
  pub category : Option String
  pub department_id : Option String
  pub assigned_to_id : Option String
  pub block : Option String
  pub search : Option String
  pub created_after : Option String
  pub created_before : Option String

pub record Pagination : Type 0 where
  pub page : Option JsNumber
  pub limit : Option JsNumber
  pub sort_by : Option String
  pub sort_order : Option String

-- The clauses of `where`: `none` for one that is not there. `search` stands for its two clauses.
pub record Where : Type 0 where
  pub status : Option String
  pub priority : Option String
  pub category : Option String
  pub department_id : Option String
  pub assigned_to_id : Option String
  pub location_block : Option String
  pub search : Option String
  pub created_from : Option String
  pub created_to : Option String

unfoldable pub build_where : Filters → Where
build_where f = record {
  status = or_null f.status;
  priority = or_null f.priority;
  category = or_null f.category;
  department_id = or_null f.department_id;
  assigned_to_id = or_null f.assigned_to_id;
  location_block = or_null f.block;
  search = or_null f.search;
  created_from = or_null f.created_after;
  created_to = or_null f.created_before;
}

-- `Math.min(Number(limit), 100)`
unfoldable pub safe_limit : JsNumber → JsNumber
safe_limit nan = nan
safe_limit (whole n) = whole (min_ℕ n 100)

rows_before : ℤ → ℤ → ℤ
rows_before (pos k) l = times k l
rows_before k l = k

-- `(Math.max(Number(page), 1) - 1) * safeLimit`
unfoldable pub safe_skip : JsNumber → JsNumber → JsNumber
unfolding rows_before
safe_skip nan l = nan
safe_skip (whole p) nan = nan
safe_skip (whole p) (whole l) = whole (rows_before (decr (max_ℕ p 1)) l)

-- The two calls of `prisma.$transaction`.
pub record ListClient (S : Type 0) : Type 0 where
  pub find_rows :
      Where → (sort_by sort_order : String) → (skip take : JsNumber) → Exec S Thrown (List Row)
  pub count : Where → Exec S Thrown ℕ

pub record Found : Type 0 where
  pub incidents : List Loaded
  pub total : ℕ

module _ {S : Type 0} (client : ListClient S) (nobody : Staff) where
  -- `findMany(filters, pagination)`
  unfoldable pub find_many : Filters → Pagination → Exec S Thrown Found
  unfolding build_where safe_limit safe_skip
  find_many f p =
      let limit = safe_limit (or_default p.limit (whole (pos 20))) in
      let skip = safe_skip (or_default p.page (whole (pos 1))) limit in
      client.find_rows (build_where f) (or_default p.sort_by "createdAt")
        (or_default p.sort_order "desc") skip limit
      >>= λ rows. client.count (build_where f) >>= λ total.
          pure (record { incidents = map (to_entity nobody) rows; total = total })
