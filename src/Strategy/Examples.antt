-- ===== src/Strategy/Examples.antt =====
-- Assignments to a small crew, and the theorems on strategies at concrete inputs.
use campusops.Common.{ℕ, ◌≡◌, refl, ◌<◌, none, some, List, [], ◌∷◌}
use campusops.Common.Exec.{ok}
use campusops.Common.Text.{trim, text_eq}
use campusops.Incident.{StaffRef}
use campusops.Samples.{crew, leaking_tap}
use campusops.Strategy.{Department, least_loaded, assign, is_available}
use campusops.User.Shift.{is_on_shift, day_matches, is_within_shift_window, split_colon, to_number}
use campusops.Strategy.Rotation.{turn, after_turns, round_robin_fair}

-- The host keeps UTC, and it is ten o'clock on the first Thursday.
abbrev utc : ℕ → ℕ
utc t = t

abbrev ten_o_clock : ℕ
ten_o_clock = 36000000

abbrev everyone : List StaffRef
everyone = 0 ∷ 1 ∷ []

abbrev works : Department
works = record {
  id = "D1";
  name = "Works";
  assignment_strategy = "ROUND_ROBIN";
  round_robin_index = some 1;
}

picks_guard : (assign crew utc ten_o_clock least_loaded none leaking_tap everyone none).0 ≡ ok 1
unfolding assign trim is_available is_on_shift day_matches text_eq is_within_shift_window
    split_colon to_number
picks_guard = refl

round_robin_fair_example :
    (k : ℕ) × (k < 2)
    × ((turn crew utc 0 none leaking_tap everyone
          (after_turns crew utc 0 none leaking_tap everyone k works)).0
        ≡ ok 0)
round_robin_fair_example = round_robin_fair crew utc 0 none leaking_tap everyone 0 works 0 refl
