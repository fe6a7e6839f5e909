-- ===== src/User/Shift.antt =====
-- domain/entities/User.js: shift days and hours, and the availability of maintenance staff.
-- `zone` gives the local wall clock, in milliseconds, of an instant: the host's time zone.
-- A time text is read as `Number` reads decimal digits with blanks around them; signs, fractions,
-- exponents and radix prefixes, which no `HH:MM` has, read as not a number here.
pub mod Windows
pub mod Slots
mod Examples
use campusops.Common.{
  or_default, ℕ, zero, suc, ◌+◌, ◌-◌, ◌*◌, ◌/◌, ◌%◌, String, Bool, true, false, ◌&&◌, ◌||◌, not,
  Option, none, some, List, [], ◌∷◌, any, map, leb, ltb, ◌==◌, if◌then◌else◌, get_elem?,
}
use campusops.Common.Text.{Text, codes, text_eq, trim, is_empty}
use campusops.User.{StaffState, active, suspended, Staff, is_active, is_suspended}

-- A JavaScript number that may be `NaN`.
pub data Minutes : Type 0 where
  nan : Minutes
  minutes : ℕ → Minutes

read_digits : ℕ → Text → Minutes
read_digits n [] = minutes n
read_digits n (c ∷ s) =
    let rest = read_digits (n * 10 + (c - 48)) s in if leb 48 c && leb c 57 then rest else nan

-- `Number(s)`; a blank text is 0
unfoldable pub to_number : Text → Minutes
unfolding read_digits trim
to_number s = read_digits 0 (trim s)

cons_head : ℕ → List Text → List Text
cons_head c [] = (c ∷ []) ∷ []
cons_head c (s ∷ ss) = (c ∷ s) ∷ ss

-- `s.split(':')`
unfoldable pub split_colon : Text → List Text
unfolding cons_head
split_colon [] = [] ∷ []
split_colon (c ∷ s) = let rest = split_colon s in if c == 58 then [] ∷ rest else cons_head c rest

-- `[h, m]` after the tests on `NaN`; a missing `m` is `undefined`, which passes the test and makes
-- the sum `NaN`.
from_parts : List Minutes → Option Minutes
from_parts [] = some nan
from_parts (nan ∷ rest) = none
from_parts (minutes h ∷ []) = some nan
from_parts (minutes h ∷ nan ∷ rest) = none
from_parts (minutes h ∷ minutes m ∷ rest) = some (minutes (h * 60 + m))

unfoldable pub parse_hhmm : Option Text → Option Minutes
unfolding from_parts
parse_hhmm none = none
parse_hhmm (some s) = if is_empty s then none else from_parts (map to_number (split_colon s))

-- `<=` and `<` on numbers that may be `NaN`
abbrev pub le_js : Minutes → Minutes → Bool
le_js (minutes a) (minutes b) = leb a b
le_js _ _ = false

abbrev pub lt_js : Minutes → Minutes → Bool
lt_js (minutes a) (minutes b) = ltb a b
lt_js _ _ = false

-- The test of `isWithinShiftWindow` on the parsed bounds.
unfoldable pub in_window : Minutes → Minutes → Minutes → Bool
in_window now start end =
    if le_js start end then le_js start now && lt_js now end else le_js start now || lt_js now end

abbrev window_of_bounds : ℕ → Option Minutes → Option Minutes → Bool
window_of_bounds now none e = false
window_of_bounds now (some s) none = false
window_of_bounds now (some s) (some e) = in_window (minutes now) s e

abbrev upper : ℕ → ℕ
upper c = if leb b'a' c && leb c b'z' then c - 32 else c

abbrev day_names : List Text
day_names =
    codes "Sunday"
    ∷ codes "Monday"
    ∷ codes "Tuesday"
    ∷ codes "Wednesday"
    ∷ codes "Thursday"
    ∷ codes "Friday"
    ∷ codes "Saturday"
    ∷ []

abbrev day_short : List Text
day_short =
    codes "SUN"
    ∷ codes "MON"
    ∷ codes "TUE"
    ∷ codes "WED"
    ∷ codes "THU"
    ∷ codes "FRI"
    ∷ codes "SAT"
    ∷ []

-- `d === name` where `name` is an element of a table
is_elem : Text → Option Text → Bool
is_elem d none = false
is_elem d (some name) = text_eq d name

-- `startMins >= 18 * 60 || endMins <= 9 * 60 || startMins > endMins`
abbrev outside_business : Option Minutes → Option Minutes → Bool
outside_business none e = false
outside_business (some s) none = false
outside_business (some s) (some e) =
    le_js (minutes (18 * 60)) s || le_js e (minutes (9 * 60)) || lt_js e s

abbrev pub slot_ms : ℕ
slot_ms = 30 * 60 * 1000

module _ (zone : ℕ → ℕ) where
  -- `date.getHours() * 60 + date.getMinutes()`
  unfoldable pub minutes_since_midnight : ℕ → ℕ
  minutes_since_midnight t = zone t / 3600000 % 24 * 60 + zone t / 60000 % 60

  -- `date.getDay()`: the epoch was a Thursday
  unfoldable pub get_day : ℕ → ℕ
  get_day t = (zone t / 86400000 + 4) % 7

  unfoldable pub day_matches : ℕ → List Text → Bool
  unfolding is_elem get_day
  day_matches t days =
      any
        (λ d.
          is_elem d (get_elem? day_names (get_day t))
          || is_elem d (get_elem? day_short (get_day t))
          || is_elem (map upper d) (get_elem? day_short (get_day t)))
        days

  unfoldable pub is_within_shift_window : ℕ → Option Text → Option Text → Bool
  unfolding in_window parse_hhmm minutes_since_midnight
  is_within_shift_window t start end =
      window_of_bounds (minutes_since_midnight t) (parse_hhmm start) (parse_hhmm end)

  unfoldable pub is_on_shift : Staff → ℕ → Bool
  is_on_shift s t =
      if is_suspended s.staff_state
      then false
      else if not (day_matches t s.shift_days)
      then false
      else is_within_shift_window t s.shift_start s.shift_end

  -- The loop of `isAvailableFor`, on fuel: one slot in each round, up to the end of the window; `none`
  -- where the fuel runs out first.
  pub check_slots : ℕ → Staff → ℕ → ℕ → Option Bool
  check_slots zero s t end = none
  check_slots (suc fuel) s t end =
      let rest = check_slots fuel s (t + slot_ms) end in
      if leb t end then (if is_on_shift s t then rest else some false) else some (is_on_shift s end)

  unfoldable pub is_available_for : Staff → ℕ → ℕ → Bool
  unfolding check_slots
  is_available_for s hours from =
      if not (is_active s.staff_state)
      then false
      else if leb hours 0
      then is_on_shift s from
      else or_default (check_slots (2 * hours + 2) s from (from + hours * 3600000)) false

  unfoldable pub is_on_call : Staff → ℕ → Bool
  is_on_call s t =
      if not (is_active s.staff_state)
      then false
      else if not (is_on_shift s t)
      then false
      else outside_business (parse_hhmm s.shift_start) (parse_hhmm s.shift_end)
