-- ===== src/User/Shift/Windows.antt =====
-- Shift windows as arcs of the clock, and the reading of `HH:MM`.
use campusops.Common.{
  ◌⊎◌, inl, inr, Bool-cases, if◌then◌else◌, ℕ, zero, suc, ◌+◌, ◌-◌, ◌*◌, ◌/◌, ◌%◌, ◌<◌, ◌≡◌, refl,
  ◌↔◌, Bool, true, false, some, [], ◌∷◌, ◌++◌, arith, ◌==◌,
}
use campusops.Common.Text.{Text, trim}
use campusops.User.Shift.{Minutes, nan, minutes, to_number, split_colon, parse_hhmm, in_window}

-- A time of day is in the window exactly when it lies less far after the start, round the clock,
-- than the end does: day shifts and shifts over midnight alike.
pub in_window_arc :
    (now start end : ℕ)
    → now < 1440
    → start < 1440
    → end < 1440
    → (in_window (minutes now) (minutes start) (minutes end) ≡ true)
      ↔ ((now + 1440 - start) % 1440 < (end + 1440 - start) % 1440)
unfolding in_window
in_window_arc now start end a b c = ground arith

-- Two digits, and a time of day as the forms write it.
abbrev two_digits : ℕ → Text
two_digits n = (48 + n / 10) ∷ (48 + n % 10) ∷ []

abbrev pub format_hhmm : ℕ → ℕ → Text
format_hhmm h m = two_digits h ++ 58 ∷ two_digits m

abbrev is_number : Minutes → ℕ → Bool
is_number nan n = false
is_number (minutes m) n = m == n

is_number_sound : (m : Minutes) (n : ℕ) → is_number m n ≡ true → m ≡ minutes n
is_number_sound nan n h = cc
is_number_sound (minutes m) n h = ground arith

-- The two-digit texts are read back, up to a bound.
reads_back : ℕ → Bool
reads_back zero = true
reads_back (suc k) =
    let earlier = reads_back k in if is_number (to_number (two_digits k)) k then earlier else false

below_or_top : {n k : ℕ} → n < suc k → (n < k) ⊎ (n ≡ k)
below_or_top h = ground arith

reads_back_at :
    (n k : ℕ) → n < k → reads_back k ≡ true → is_number (to_number (two_digits n)) n ≡ true
unfolding reads_back
reads_back_at n zero lt e = elim lt [ ]
reads_back_at n (suc k) lt e = elim (Bool-cases (is_number (to_number (two_digits k)) k)) [
  | inl read ↦ elim (below_or_top lt) [
    | inl earlier ↦ reads_back_at n k earlier (rw read at e)
    | inr top ↦ rw top read
  ]
  | inr misread ↦ cc (rw misread at e)
]

reads_back_hundred : reads_back 100 ≡ true
unfolding reads_back to_number trim
reads_back_hundred = refl

to_number-two_digits : (n : ℕ) → n < 100 → to_number (two_digits n) ≡ minutes n
to_number-two_digits n h =
    is_number_sound (to_number (two_digits n)) n (reads_back_at n 100 h reads_back_hundred)

split_colon-format :
    (h m : ℕ) → h < 100 → m < 100 → split_colon (format_hhmm h m) ≡ two_digits h ∷ two_digits m ∷ []
unfolding split_colon
split_colon-format h m a b = ground arith

-- A well-formed time of day is read as its minutes since midnight.
pub parse_hhmm-format :
    (h m : ℕ) → h < 24 → m < 60 → parse_hhmm (some (format_hhmm h m)) ≡ some (minutes (h * 60 + m))
unfolding parse_hhmm
parse_hhmm-format h m a b =
    let parts = split_colon-format h m (omega arith) (omega arith) in
    let hours = to_number-two_digits h (omega arith) in
    rw (parts, hours, to_number-two_digits m (omega arith))
