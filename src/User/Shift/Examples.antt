-- ===== src/User/Shift/Examples.antt =====
-- The theorems on shifts at concrete inputs.
use campusops.Common.{◌≡◌, ◌↔◌, ◌+◌, ◌*◌, is_some, true, arith}
use campusops.User.{is_active}
use campusops.User.Shift.{is_available_for, check_slots}
use campusops.User.Shift.Slots.{OnShiftAtSlots, is_available_for_iff, check_slots_terminates}
use campusops.Samples.{day_worker}

is_available_for_iff_example : (is_available_for (λ t. t) (day_worker "S0" 2) 4 36000000 ≡ true) ↔ (
    (is_active (day_worker "S0" 2).staff_state ≡ true)
    × OnShiftAtSlots (λ t. t) (day_worker "S0" 2) 36000000 8)
is_available_for_iff_example = is_available_for_iff (λ t. t) (day_worker "S0" 2) 4 36000000

check_slots_terminates_example :
    (is_some (check_slots (λ t. t) 50 (day_worker "S0" 2) 36000000 50400000) ≡ true)
    × (is_some
          (check_slots (λ t. t) (2 * 4 + 2) (day_worker "S0" 2) 36000000 (36000000 + 4 * 3600000))
        ≡ true)
check_slots_terminates_example =
    check_slots_terminates (λ t. t) (day_worker "S0" 2) 8 50 36000000 50400000 4 (omega arith)
      (omega arith)
