-- ===== src/Controller/Listing/Pages.antt =====
-- Which incidents the pages of a list show.
use campusops.Common.{
  Option, none, Bool, true, false, ◌&&◌, filter, str_eq, All, ℕ, zero, suc, ◌≡◌, String, some, List,
  [], ◌∷◌, ◌++◌, length, take, drop, ltb, if◌then◌else◌, or_default,
}
use campusops.Common.Exec.{ok}
use campusops.Common.Int.{pos}
use campusops.Common.Text.{or_null}
use campusops.User.{Staff}
use campusops.Service.{Loaded}
use campusops.Repository.{Row}
use campusops.Repository.Listing.{whole, Filters, Where, ListClient}
use campusops.Controller.Listing.{Query, ListResponse, listed, list_failed, list_incidents}

-- How the database reads a row: whether a column has the value of a clause, and the value that a
-- column is ordered by.
pub record Reading : Type 0 where
  pub status : String → Row → Bool
  pub priority : String → Row → Bool
  pub category : String → Row → Bool
  pub department_id : String → Row → Bool
  pub assigned_to_id : String → Row → Bool
  pub location_block : String → Row → Bool
  pub mentions : String → Row → Bool
  pub created_from : String → Row → Bool
  pub created_to : String → Row → Bool
  pub value : String → Row → String

-- A clause that is not there is no condition.
abbrev holds : (String → Row → Bool) → Option String → Row → Bool
holds p none r = true
holds p (some x) r = p x r

abbrev pub meets : Reading → Where → Row → Bool
meets d w r =
    holds d.status w.status r
    && holds d.priority w.priority r
    && holds d.category w.category r
    && holds d.department_id w.department_id r
    && holds d.assigned_to_id w.assigned_to_id r
    && holds d.location_block w.location_block r
    && holds d.mentions w.search r
    && holds d.created_from w.created_from r
    && holds d.created_to w.created_to r

-- A filter that is missing or empty lets every row through, and any other only those with its value.
abbrev asked : (String → Row → Bool) → Option String → Row → Bool
asked p none r = true
asked p (some x) r = if str_eq x "" then true else p x r

abbrev pub satisfies : Reading → Filters → Row → Bool
satisfies d f r =
    asked d.status f.status r
    && asked d.priority f.priority r
    && asked d.category f.category r
    && asked d.department_id f.department_id r
    && asked d.assigned_to_id f.assigned_to_id r
    && asked d.location_block f.block r
    && asked d.mentions f.search r
    && asked d.created_from f.created_after r
    && asked d.created_to f.created_before r

-- No two rows have the same value in a column.
abbrev pub IsDistinctBy : Reading → String → List Row → Type 0
IsDistinctBy d by [] = Unit
IsDistinctBy d by (r ∷ rs) =
    All (λ x. str_eq (d.value by r) (d.value by x) ≡ false) rs × IsDistinctBy d by rs

-- What the database finds: the number of the rows of the table that meet the clauses; and, where no
-- two of them have the same value in the column of the order, a window of them as they are sorted.
-- `sorted` rearranges rows: as many of them pass any test.
pub record IsListed {S : Type 0} (client : ListClient S) (d : Reading) (rows : S → List Row)
    (sorted : String → String → List Row → List Row) : Type 0 where
  pub window :
      (w : Where) (by order : String) (k n : ℕ) (s : S)
      → IsDistinctBy d by (filter (meets d w) (rows s))
      → client.find_rows w by order (whole (pos k)) (whole (pos n)) s
        ≡ (ok (take n (drop k (sorted by order (filter (meets d w) (rows s))))), s)
  pub counted :
      (w : Where) (by order : String) (s : S)
      → client.count w s ≡ (ok (length (filter (meets d w) (rows s))), s)
  pub rearranged :
      (by order : String) (p : Row → Bool) (rs : List Row)
      → length (filter p (sorted by order rs)) ≡ length (filter p rs)

abbrev pub cap : ℕ → ℕ
cap l = if ltb 100 l then 100 else l

abbrev pub items : ListResponse → List Loaded
items (listed ls m) = ls
items (list_failed n) = []

abbrev pub at_page : Query → ℕ → ℕ → Query
at_page q p l = record q { page = some (whole (pos p)); limit = some (whole (pos l)) }

module _ {S : Type 0} {client : ListClient S} {d : Reading} {rows : S → List Row}
    {sorted : String → String → List Row → List Row} (listed_by : IsListed client d rows sorted)
    (nobody : Staff) (q : Query) (l : ℕ) (s : S) where
  abbrev pub by_column : String
  by_column = or_default (or_null q.sort_by) "createdAt"

  -- The rows of the table that satisfy the filters of the query.
  abbrev pub matching : List Row
  matching = filter (satisfies d q.filters) (rows s)

  -- The same rows in the order of the query.
  abbrev pub wanted : List Row
  wanted = sorted by_column (or_default (or_null q.sort_order) "desc") matching

  -- The pages from the first to the n-th, one after the other.
  abbrev pub first_pages : ℕ → List Loaded
  first_pages zero = []
  first_pages (suc n) =
      first_pages n ++ items (list_incidents client nobody (at_page q (suc n) l) s).0
