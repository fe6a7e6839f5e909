-- ===== src/Repository/Queries/Gate.antt =====
-- What the validation chain finds in the table of incidents before it lets one through.
use campusops.Common.{
  Option, ◌+◌, Bool-cases, refl, inl, inr, suc, ◌||◌, ◌&&◌, ◌-◌, true, [], ◌∷◌, arith, leb, ℕ, ◌<◌,
  ◌≡◌, sym, ap, ◌∙◌, Bool, false, String, none, some, List, length, filter, any, str_eq,
}
use campusops.Common.Exec.{ok}
use campusops.Common.Text.{or_null}
use campusops.Incident.{Location}
use campusops.Validation.{Dto, duplicate_window_hours, one_hour_ms}
use campusops.Validation.Verdicts.{run_chain, validate_sound}
use campusops.Repository.Queries.{
  equals, in_room, IncidentColumns, DuplicateWhere, RecentWhere, meets_duplicate, meets_recent,
  QueryClient, duplicate_where, recent_where, find_duplicates, count_recent_by_user,
  incident_queries,
}

-- The table behind the client: a search that finds nothing means that no row meets the conditions,
-- and a count is the count of those that do; neither changes the table.
pub record IsTable {S : Type 0} (client : QueryClient S) (rows : S → List IncidentColumns)
    : Type 0 where
  pub searched :
      (w : DuplicateWhere) (s t : S)
      → client.find_first w s ≡ (ok none, t)
      → (any (meets_duplicate w) (rows s) ≡ false) × (rows t ≡ rows s)
  pub counted :
      (w : RecentWhere) (s : S) (n : ℕ) (t : S)
      → client.count w s ≡ (ok n, t)
      → (n ≡ length (filter (meets_recent w) (rows s))) × (rows t ≡ rows s)

abbrev is_open_or_in_progress : String → Bool
is_open_or_in_progress s = str_eq s "OPEN" || str_eq s "IN_PROGRESS"

-- Reported in the same block, and in the same room if one is given.
abbrev pub is_at : Location → IncidentColumns → Bool
is_at l r =
    elim l.block [ none ↦ true | some b ↦ str_eq r.location_block b ] && elim (or_null l.room) [
      | none ↦ true
      | some q ↦ elim r.location_room [ none ↦ false | some x ↦ str_eq x q ]
    ]

-- Reported in the same place and category, still open or in progress, and not older than 24 hours.
abbrev pub is_repeat : ℕ → Location → String → IncidentColumns → Bool
is_repeat now l c r =
    is_at l r
    && str_eq r.category c
    && is_open_or_in_progress r.status
    && leb now (r.created_at + 86400000)

-- Reported by the user within the last hour.
abbrev pub is_recent_of : ℕ → String → IncidentColumns → Bool
is_recent_of now user r = str_eq r.creator_id user && leb now (r.created_at + 3600000)

-- The test of the time: the cut-off against the age.
since_lem : (now w t : ℕ) → leb (now - w) t ≡ leb now (t + w)
since_lem now w t = ground arith

place_lem :
    (l : Location) (r : IncidentColumns)
    → (equals r.location_block l.block && in_room r.location_room (or_null l.room)) ≡ is_at l r
place_lem l r = rw (block_lem l.block, room_lem r.location_room (or_null l.room)) refl
  where
    block_lem :
        (o : Option String)
        → equals r.location_block o ≡ elim o [ none ↦ true | some b ↦ str_eq r.location_block b ]
    block_lem none = refl
    block_lem (some b) = refl

    room_lem :
        (x o : Option String)
        → in_room x o
          ≡ elim o [ none ↦ true | some q ↦ elim x [ none ↦ false | some y ↦ str_eq y q ] ]
    room_lem x none = refl
    room_lem none (some q) = refl
    room_lem (some y) (some q) = refl

repeat_lem :
    (now : ℕ) (l : Location) (c : String) (r : IncidentColumns)
    → meets_duplicate (duplicate_where now l (some c) duplicate_window_hours) r
      ≡ is_repeat now l c r
unfolding meets_duplicate
repeat_lem now l c r =
    regroup (equals r.location_block l.block && in_room r.location_room (or_null l.room))
      (is_at l r) (str_eq r.category c) (str_eq r.status "OPEN") (str_eq r.status "IN_PROGRESS")
      (leb (now - 86400000) r.created_at) (leb now (r.created_at + 86400000)) (place_lem l r)
      (since_lem now 86400000 r.created_at)
  where
    regroup :
        (a a' b c d e e' : Bool)
        → a ≡ a'
        → e ≡ e'
        → (a && b && (c || (d || false)) && e) ≡ (a' && b && (c || d) && e')
    regroup a a' b c d e e' h k = rw (h, k) (ground arith)

recent_lem :
    (now : ℕ) (user : String) (r : IncidentColumns)
    → meets_recent (recent_where now user one_hour_ms) r ≡ is_recent_of now user r
unfolding meets_recent
recent_lem now user r = ground arith

any_same :
    (f g : IncidentColumns → Bool) (rs : List IncidentColumns)
    → ((r : IncidentColumns) → f r ≡ g r)
    → any f rs ≡ any g rs
any_same f g [] h = refl
any_same f g (r ∷ rs) h = rw (h r, any_same f g rs h) refl

count_same :
    (f g : IncidentColumns → Bool) (rs : List IncidentColumns)
    → ((r : IncidentColumns) → f r ≡ g r)
    → length (filter f rs) ≡ length (filter g rs)
count_same f g [] h = refl
count_same f g (r ∷ rs) h = elim (Bool-cases (g r)) [
  | inl t ↦ rw (h r, t) (ap suc (count_same f g rs h))
  | inr n ↦ rw (h r, n) (count_same f g rs h)
]

module _ {S : Type 0} {client : QueryClient S} {rows : S → List IncidentColumns}
    (table : IsTable client rows) (now : ℕ) (user : String) where
  -- An incident with a place and a category that the chain lets through for a known reporter repeats
  -- no row of the table, an open one or one in progress of the last 24 hours with its category at
  -- its place, and its reporter has fewer than five rows of the last hour; the rows stay as they are.
  pub chain_keeps_out :
      (dto out : Dto) (l : Location) (c : String) (s t : S)
      → str_eq user "" ≡ false
      → dto.location ≡ some l
      → dto.category ≡ some c
      → run_chain (incident_queries client now) user dto s ≡ (ok out, t)
      → (any (is_repeat now l c) (rows s) ≡ false)
        × (length (filter (is_recent_of now user) (rows s)) < 5)
        × (rows t ≡ rows s)
  unfolding find_duplicates count_recent_by_user
  chain_keeps_out dto out l c s t given place kind h =
      let (same, formed, evidence, asked) =
        validate_sound (incident_queries client now) user dto out s t given h in
      let (u, nothing, recent) = asked in
      let (n, count, few) = recent in
      let (clear, kept) =
        table.searched (duplicate_where now l (some c) duplicate_window_hours) s u (
          ap (λ d. find_duplicates client now d (some c) duplicate_window_hours s) (sym place)
          ∙ ap (λ d. find_duplicates client now dto.location d duplicate_window_hours s) (sym kind)
          ∙ nothing) in
      let (exact, kept') = table.counted (recent_where now user one_hour_ms) u n t count in
      let mine = λ (r : IncidentColumns). meets_recent (recent_where now user one_hour_ms) r in
      let all =
        exact
        ∙ ap (λ rs. length (filter mine rs)) kept
        ∙ count_same mine (is_recent_of now user) (rows s) (recent_lem now user) in
      let live = λ (r : IncidentColumns).
        meets_duplicate (duplicate_where now l (some c) duplicate_window_hours) r in
      (
        sym (any_same live (is_repeat now l c) (rows s) (repeat_lem now l c)) ∙ clear,
        rw (← all) few,
        kept' ∙ kept,
      )
