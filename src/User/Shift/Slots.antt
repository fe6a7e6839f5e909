-- ===== src/User/Shift/Slots.antt =====
-- When a staff member is available for a whole window.
use campusops.Common.{
  ℕ, zero, suc, ◌+◌, ◌*◌, ◌≤◌, ◌<◌, ◌≡◌, refl, ◌↔◌, Bool, true, false, arith, if◌then◌else◌, Option,
  none, some, is_some, or_default, ap, leb, Bool-cases, inl, inr,
}
use campusops.User.{Staff, is_active}
use campusops.User.Shift.{slot_ms, is_on_shift, check_slots, is_available_for}

both : (a b : Bool) → (if a then b else false) ≡ true → (a ≡ true) × (b ≡ true)
both a b h = ground arith

both_some :
    (a : Bool) (o : Option Bool)
    → (if a then o else some false) ≡ some true
    → (a ≡ true) × (o ≡ some true)
both_some true o h = (refl, h)
both_some false o h = cc

if_some :
    (a : Bool) (o : Option Bool) → is_some o ≡ true → is_some (if a then o else some false) ≡ true
if_some true o h = h
if_some false o h = refl

yes : (o : Option Bool) → or_default o false ≡ true → o ≡ some true
yes none h = cc
yes (some b) h = ap (λ x. some x) h

module _ (zone : ℕ → ℕ) (s : Staff) where
  -- On shift at every half hour, from `t` to `k` slots later.
  abbrev pub OnShiftAtSlots : ℕ → ℕ → Type 0
  OnShiftAtSlots t k = (j : ℕ) → j ≤ k → is_on_shift zone s (t + j * slot_ms) ≡ true

  OnShiftAtSlots-cons :
      (t k : ℕ)
      → is_on_shift zone s t ≡ true
      → OnShiftAtSlots (t + slot_ms) k
      → OnShiftAtSlots t (suc k)
  OnShiftAtSlots-cons t k first rest zero le =
      let e : t + zero * slot_ms ≡ t = omega arith in rw e first
  OnShiftAtSlots-cons t k first rest (suc j) le =
      let e : t + suc j * slot_ms ≡ t + slot_ms + j * slot_ms = omega arith in
      rw e (rest j (omega arith))

  OnShiftAtSlots-tail : (t k : ℕ) → OnShiftAtSlots t (suc k) → OnShiftAtSlots (t + slot_ms) k
  OnShiftAtSlots-tail t k all j le =
      let e : t + slot_ms + j * slot_ms ≡ t + suc j * slot_ms = omega arith in
      rw e (all (suc j) (omega arith))

  OnShiftAtSlots-head : (t k : ℕ) → OnShiftAtSlots t k → is_on_shift zone s t ≡ true
  OnShiftAtSlots-head t k all =
      let e : t ≡ t + 0 * slot_ms = omega arith in rw e (all 0 (omega arith))

  check_slots_done :
      (fuel t end : ℕ)
      → end < t
      → check_slots zone (suc fuel) s t end ≡ some (is_on_shift zone s end)
  unfolding check_slots
  check_slots_done fuel t end h = ground arith

  check_slots_round :
      (fuel t end : ℕ)
      → t ≤ end
      → check_slots zone (suc fuel) s t end
        ≡ (if is_on_shift zone s t then check_slots zone fuel s (t + slot_ms) end else some false)
  unfolding check_slots
  check_slots_round fuel t end h = ground arith

  -- With a round for each slot and one for the end, the loop says whether all slots are on shift.
  check_slots_iff :
      (k fuel t end : ℕ)
      → k + 2 ≤ fuel
      → end ≡ t + k * slot_ms
      → (check_slots zone fuel s t end ≡ some true) ↔ OnShiftAtSlots t k
  check_slots_iff k zero t end f e = absurd (omega arith)
  check_slots_iff k (suc zero) t end f e = absurd (omega arith)
  check_slots_iff zero (suc (suc fuel)) t end f e =
      rw (check_slots_round (suc fuel) t end (omega arith)) (
        rw (check_slots_done fuel (t + slot_ms) end (omega arith)) (
          λ p j le.
              let here : t + j * slot_ms ≡ t = omega arith in
              rw here (both_some (is_on_shift zone s t) (some (is_on_shift zone s end)) p).0,
          λ all.
              let here = OnShiftAtSlots-head t 0 all in
              let same : end ≡ t = omega arith in rw (same, here) refl,
        ))
  check_slots_iff (suc k) (suc (suc fuel)) t end f e =
      let ih = check_slots_iff k (suc fuel) (t + slot_ms) end (omega arith) (omega arith) in
      rw (check_slots_round (suc fuel) t end (omega arith)) (
        λ p.
            let (now, later) =
              both_some (is_on_shift zone s t) (check_slots zone (suc fuel) s (t + slot_ms) end)
                p in
            OnShiftAtSlots-cons t k now (ih.0 later),
        λ all.
            let here = OnShiftAtSlots-head t (suc k) all in
            let later = ih.1 (OnShiftAtSlots-tail t k all) in rw (here, later) refl,
      )

  available_now :
      (from : ℕ)
      → is_available_for zone s 0 from
        ≡ (if is_active s.staff_state then is_on_shift zone s from else false)
  unfolding is_available_for
  available_now from = ground arith

  available_later :
      (h from : ℕ)
      → is_available_for zone s (suc h) from ≡ (
          if is_active s.staff_state
          then or_default (check_slots zone (2 * suc h + 2) s from (from + suc h * 3600000)) false
          else false)
  unfolding is_available_for
  available_later h from = ground arith

  -- A staff member is available for a window of some hours exactly when active, and on shift at its
  -- start and at every half hour up to and including its end.
  pub is_available_for_iff :
      (hours from : ℕ)
      → (is_available_for zone s hours from ≡ true)
        ↔ ((is_active s.staff_state ≡ true) × OnShiftAtSlots from (2 * hours))
  is_available_for_iff zero from = rw (available_now from) (
    λ p.
        let (a, b) = both (is_active s.staff_state) (is_on_shift zone s from) p in
        (a, λ j le. let here : from + j * slot_ms ≡ from = omega arith in rw here b),
    λ q. ground (arith, OnShiftAtSlots-head from 0 q.1),
  )
  is_available_for_iff (suc h) from =
      let loop = check_slots zone (2 * suc h + 2) s from (from + suc h * 3600000) in
      let slots =
        check_slots_iff (2 * suc h) (2 * suc h + 2) from (from + suc h * 3600000) (omega arith)
          (omega arith) in
      rw (available_later h from) (
        λ p.
            let (a, b) = both (is_active s.staff_state) (or_default loop false) p in
            (a, slots.0 (yes loop b)),
        λ q. let done = slots.1 q.1 in rw (q.0, done) refl,
      )

module _ (zone : ℕ → ℕ) (s : Staff) where
  -- The loop over a window of at most `k` half hours ends, with an answer, within two rounds more
  -- than there are half hours in it; so with its fuel, which is two rounds for each hour and two
  -- more, it ends for a window of any number of hours.
  pub check_slots_terminates :
      (k fuel t end hours : ℕ)
      → k + 2 ≤ fuel
      → end ≤ t + k * slot_ms
      → (is_some (check_slots zone fuel s t end) ≡ true)
        × (is_some (check_slots zone (2 * hours + 2) s t (t + hours * 3600000)) ≡ true)
  check_slots_terminates k fuel t end hours h e = (
    slots_end k fuel t end h e,
    slots_end (2 * hours) (2 * hours + 2) t (t + hours * 3600000) (omega arith) (omega arith),
  )
    where
      slots_end :
          (k fuel t end : ℕ)
          → k + 2 ≤ fuel
          → end ≤ t + k * slot_ms
          → is_some (check_slots zone fuel s t end) ≡ true
      slots_end k zero t end h e = absurd (omega arith)
      slots_end k (suc zero) t end h e = absurd (omega arith)
      slots_end zero (suc (suc fuel)) t end h e = elim (Bool-cases (leb t end)) [
        | inl go ↦ rw (check_slots_round zone s (suc fuel) t end (ground arith)) (
            rw (check_slots_done zone s fuel (t + slot_ms) end (omega arith))
              (if_some (is_on_shift zone s t) (some (is_on_shift zone s end)) refl))
        | inr stop ↦ rw (check_slots_done zone s (suc fuel) t end (ground arith)) refl
      ]
      slots_end (suc k) (suc (suc fuel)) t end h e = elim (Bool-cases (leb t end)) [
        | inl go ↦ rw (check_slots_round zone s (suc fuel) t end (ground arith)) (
            if_some (is_on_shift zone s t) (check_slots zone (suc fuel) s (t + slot_ms) end)
              (slots_end k (suc fuel) (t + slot_ms) end (omega arith) (omega arith)))
        | inr stop ↦ rw (check_slots_done zone s (suc fuel) t end (ground arith)) refl
      ]
