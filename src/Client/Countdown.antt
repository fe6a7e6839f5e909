-- ===== src/Client/Countdown.antt =====
-- client/src/components/SLACountdown.jsx: the time that is left until a deadline, in milliseconds
-- since the epoch, as it is shown. `String(n).padStart(2, '0')` is kept as the number.
use campusops.Common.{
  ℕ, ◌+◌, ◌-◌, ◌*◌, ◌/◌, ◌%◌, ◌≤◌, ◌<◌, ◌≡◌, ◌≢◌, ◌↔◌, refl, arith, true, false, Option, none, some,
  Bool-cases, inl, inr, ltb, leb, if◌then◌else◌,
}
use campusops.Sla.{SlaPolicy, is_breached, get_remaining_ms}

pub data Color : Type 0 where
  red amber green : Color

-- The pill: no deadline, a deadline that has passed, or the hours and minutes, or minutes and seconds.
pub data Pill : Type 0 where
  no_sla sla_breached : Pill
  hours_left : (hours minutes : ℕ) → Color → Pill
  minutes_left : (minutes seconds : ℕ) → Color → Pill

unfoldable pub color_of : ℕ → Color
color_of remaining =
    if ltb remaining (30 * 60 * 1000)
    then red
    else if ltb remaining (2 * 60 * 60 * 1000)
    then amber
    else green

-- The text of a time that is left, above zero.
unfoldable pub formatted : ℕ → Pill
unfolding color_of
formatted remaining =
    let total_sec = remaining / 1000 in
    let h = total_sec / 3600 in
    let m = total_sec % 3600 / 60 in
    let s = total_sec % 60 in
    if ltb 0 h then hours_left h m (color_of remaining) else minutes_left m s (color_of remaining)

-- `SLACountdown`, where `remaining <= 0` is `deadline <= now`.
unfoldable pub countdown : (deadline : Option ℕ) → (now : ℕ) → Pill
unfolding formatted
countdown none now = no_sla
countdown (some d) now = if leb d now then sla_breached else formatted (d - now)

-- The milliseconds that a text of the pill stands for, and the length of the unit that it is cut to.
abbrev pub shown_ms : Pill → ℕ
shown_ms (hours_left h m c) = (h * 3600 + m * 60) * 1000
shown_ms (minutes_left m s c) = (m * 60 + s) * 1000
shown_ms _ = 0

abbrev pub unit_ms : Pill → ℕ
unit_ms (hours_left h m c) = 60 * 1000
unit_ms _ = 1000

ltb-false : {n : ℕ} → ltb 0 n ≡ false → n ≡ 0
ltb-false h = ground arith

formatted_close :
    (r : ℕ) → (shown_ms (formatted r) ≤ r) × (r < shown_ms (formatted r) + unit_ms (formatted r))
unfolding formatted
formatted_close r = elim (Bool-cases (ltb 0 (r / 1000 / 3600))) [
  | inl t ↦ rw t (omega arith)
  | inr f ↦ let none_left = ltb-false f in rw f (omega (arith, none_left))
]

not_breached : (r : ℕ) → formatted r ≢ sla_breached
unfolding formatted
not_breached r e = elim (Bool-cases (ltb 0 (r / 1000 / 3600))) [
  | inl t ↦ cc (rw t at e)
  | inr f ↦ cc (rw f at e)
]

-- The pill says that the deadline was missed exactly when the server's policy counts it as missed;
-- before that, the time that it shows is what the policy has left, cut down to whole minutes from
-- an hour on, and to whole seconds below.
pub countdown_exact :
    (sla : SlaPolicy) (d now : ℕ)
    → sla.deadline_at ≡ some d
    → ((countdown sla.deadline_at now ≡ sla_breached) ↔ (is_breached sla now ≡ true))
      × (is_breached sla now ≡ false
          → (shown_ms (countdown sla.deadline_at now) ≤ get_remaining_ms sla now)
            × (get_remaining_ms sla now
                < shown_ms (countdown sla.deadline_at now)
                  + unit_ms (countdown sla.deadline_at now)))
unfolding countdown is_breached get_remaining_ms
countdown_exact sla d now h = elim (Bool-cases (leb d now)) [
  | inl t ↦ rw (h, t) ((λ e. refl, λ e. refl), λ e. cc)
  | inr f ↦
      rw (h, f) ((λ e. absurd (not_breached (d - now) e), λ e. cc), λ e. formatted_close (d - now))
]
