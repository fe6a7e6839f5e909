-- ===== src/Repository/Queries.antt =====
-- infrastructure/repositories/IncidentRepository.js: the queries of the validators, findDuplicates,
-- incrementDuplicateCount and countRecentByUser.
mod Examples
pub mod Gate
use campusops.Common.{
  ℕ, ◌+◌, ◌-◌, ◌*◌, Bool, true, false, not, ◌&&◌, ◌||◌, String, Option, none, some, List, [], ◌∷◌,
  length, leb, ltb, str_eq, or_default, if◌then◌else◌, any,
}
use campusops.Common.Exec.{Exec, Result, pure, ◌>>=◌}
use campusops.Common.Text.{or_null}
use campusops.Errors.{Thrown, type_error}
use campusops.Incident.{Location}
use campusops.Validation.{Duplicate, IncidentQueries}

-- The columns that the queries read.
pub record IncidentColumns : Type 0 where
  pub id : String
  pub incident_number : String
  pub creator_id : String
  pub location_block : String
  pub location_room : Option String
  pub category : String
  pub status : String
  pub created_at : ℕ

-- The conditions of `findDuplicates`; a room that is `none` is no condition.
pub record DuplicateWhere : Type 0 where
  pub location_block : Option String
  pub location_room : Option String
  pub category : Option String
  pub created_from : ℕ

pub record RecentWhere : Type 0 where
  pub creator_id : String
  pub created_from : ℕ

abbrev equals : String → Option String → Bool
equals s none = true
equals s (some t) = str_eq s t

-- `status: { in: ['OPEN', 'IN_PROGRESS'] }`
abbrev pub is_live : String → Bool
is_live s = any (str_eq s) ("OPEN" ∷ "IN_PROGRESS" ∷ [])

abbrev in_room : Option String → Option String → Bool
in_room r none = true
in_room none (some q) = false
in_room (some r) (some q) = str_eq r q

-- What the database takes the conditions for: one that is `undefined` is no condition.
unfoldable pub meets_duplicate : DuplicateWhere → IncidentColumns → Bool
meets_duplicate w r =
    equals r.location_block w.location_block
    && in_room r.location_room w.location_room
    && equals r.category w.category
    && is_live r.status
    && leb w.created_from r.created_at

unfoldable pub meets_recent : RecentWhere → IncidentColumns → Bool
meets_recent w r = str_eq r.creator_id w.creator_id && leb w.created_from r.created_at

-- The calls of the database client; `find_first` gives the newest.
pub record QueryClient (S : Type 0) : Type 0 where
  pub find_first : DuplicateWhere → Exec S Thrown (Option Duplicate)
  pub increment : (id : String) → Exec S Thrown (Unit {0})
  pub count : RecentWhere → Exec S Thrown ℕ

abbrev pub duplicate_where : ℕ → Location → Option String → ℕ → DuplicateWhere
duplicate_where now l category window_hours = record {
  location_block = l.block;
  location_room = or_null l.room;
  category = category;
  created_from = now - window_hours * 60 * 60 * 1000;
}

abbrev pub recent_where : ℕ → String → ℕ → RecentWhere
recent_where now user window_ms = record { creator_id = user; created_from = now - window_ms }

module _ {S : Type 0} (client : QueryClient S) (now : ℕ) where
  -- `findDuplicates(location, category, windowHours)`: reading the block of null is a `TypeError`.
  unfoldable pub find_duplicates :
      Option Location → Option String → ℕ → Exec S Thrown (Option Duplicate)
  find_duplicates none category window_hours = λ s. (Result.err type_error, s)
  find_duplicates (some l) category window_hours =
      client.find_first (duplicate_where now l category window_hours)

  -- `countRecentByUser(userId, windowMs)`
  unfoldable pub count_recent_by_user : String → ℕ → Exec S Thrown ℕ
  count_recent_by_user user window_ms = client.count (recent_where now user window_ms)

  -- The repository, as the validators see it; `incrementDuplicateCount` is the client's update.
  abbrev pub incident_queries : IncidentQueries S
  incident_queries = record {
    find_duplicates = find_duplicates;
    increment_duplicate_count = client.increment;
    count_recent_by_user = count_recent_by_user;
  }
