-- ===== src/Strategy/Choice.antt =====
-- Whom each strategy picks, and when it throws instead (AssignmentStrategy.js).
use campusops.Common.{
  ℕ, zero, suc, ◌%◌, ◌≡◌, refl, sym, ◌⊎◌, inl, inr, Bool, true, Option, none, some, List, [], ◌∷◌,
  arith, filter, find, get_elem?, length, or_default, str_eq, String, Bool-cases,
}
use mathlib.Core.List.{Memᴰ}
use mathlib.Core.Path.{subst}
use campusops.Common.Exec.{Result, ok, err}
use campusops.Errors.{Thrown, domain, no_staff_available}
use campusops.User.{Staff, is_active}
use campusops.Incident.{Incident}
use campusops.Strategy.{
  Department, Strategy, least_loaded, round_robin, shift_aware, manual, is_available, covers_window,
  is_reserve, window_hours, first_or, or_on_call, pick_turn, check_target, round_robin_assign,
  manual_assign, assign,
}
use campusops.Strategy.Ranking.{FirstLeast, here, there, Ranked, empty, ranked, sort-Ranked}

module _ {A : Type 0} (p : A → Bool) where
  from_kept :
      (x : A) (xs : List A) (a : A)
      → p x ≡ true
      → (Memᴰ a (filter p xs) → Memᴰ a xs × (p a ≡ true))
      → Memᴰ a (x ∷ filter p xs)
      → Memᴰ a (x ∷ xs) × (p a ≡ true)
  from_kept x xs a kept ih (Memᴰ.head e) = (Memᴰ.head e, rw e kept)
  from_kept x xs a kept ih (Memᴰ.tail m) = let (later, good) = ih m in (Memᴰ.tail later, good)

  -- What a filter keeps is in the list and passes the test.
  filter_sound : (xs : List A) (a : A) → Memᴰ a (filter p xs) → Memᴰ a xs × (p a ≡ true)
  filter_sound [] a m = elim m [ ]
  filter_sound (x ∷ xs) a m = elim (Bool-cases (p x)) [
    | inl kept ↦ from_kept x xs a kept (filter_sound xs a) (rw kept at m)
    | inr dropped ↦
        let (later, good) = filter_sound xs a (rw dropped at m) in (Memᴰ.tail later, good)
  ]

  find_sound : (xs : List A) (a : A) → find p xs ≡ some a → Memᴰ a xs × (p a ≡ true)
  find_sound [] a e = cc
  find_sound (x ∷ xs) a e = elim (Bool-cases (p x)) [
    | inl found ↦ let same : x ≡ a = cc (rw found at e) in (Memᴰ.head (sym same), rw (← same) found)
    | inr missed ↦ let (later, good) = find_sound xs a (rw missed at e) in (Memᴰ.tail later, good)
  ]

module _ {A : Type 0} (view : A → Staff) where
  -- A result that is the first of the least loaded candidates, or the given error for want of any.
  abbrev pub PicksFirstLeast : List A → Thrown → Result Thrown A → Type 0
  PicksFirstLeast candidates e (ok a) = FirstLeast view a candidates
  PicksFirstLeast candidates e (err e') = (candidates ≡ []) × (e' ≡ e)

  first_or-PicksFirstLeast :
      {xs : List A} {sorted : List A} (e : Thrown)
      → Ranked view xs sorted
      → PicksFirstLeast xs e (first_or view e sorted)
  unfolding first_or
  first_or-PicksFirstLeast e empty = (refl, refl)
  first_or-PicksFirstLeast e (ranked f) = f

  FirstLeast-mem : {a : A} {xs : List A} → FirstLeast view a xs → Memᴰ a xs
  FirstLeast-mem (here h) = Memᴰ.head refl
  FirstLeast-mem (there lt f) = Memᴰ.tail (FirstLeast-mem f)

  -- How a strategy's pick is known to be an active candidate: a test that implies activity.
  filtered_active :
      (p : A → Bool) (xs : List A) (a : A)
      → ((b : A) → p b ≡ true → is_active (view b).staff_state ≡ true)
      → Memᴰ a (filter p xs)
      → Memᴰ a xs × (is_active (view a).staff_state ≡ true)
  filtered_active p xs a h m = let (in_list, good) = filter_sound p xs a m in (in_list, h a good)

  get_elem?-mem : (xs : List A) (i : ℕ) (a : A) → get_elem? xs i ≡ some a → Memᴰ a xs
  get_elem?-mem [] i a e = cc
  get_elem?-mem (x ∷ xs) zero a e = Memᴰ.head (cc e)
  get_elem?-mem (x ∷ xs) (suc i) a e = Memᴰ.tail (get_elem?-mem xs i a e)

  available_active :
      (zone : ℕ → ℕ) (now : ℕ) (b : A)
      → is_available zone now (view b) ≡ true
      → is_active (view b).staff_state ≡ true
  unfolding is_available
  available_active zone now b h = ground arith

  covering_active :
      (zone : ℕ → ℕ) (now hours : ℕ) (b : A)
      → covers_window zone now hours (view b) ≡ true
      → is_active (view b).staff_state ≡ true
  unfolding covers_window
  covering_active zone now hours b h = ground arith

  reserve_active :
      (zone : ℕ → ℕ) (now : ℕ) (b : A)
      → is_reserve zone now (view b) ≡ true
      → is_active (view b).staff_state ≡ true
  unfolding is_reserve
  reserve_active zone now b h = ground arith

  abbrev pub ShiftAwareOutcome : List A → Option A → Thrown → Result Thrown A → Type 0
  ShiftAwareOutcome candidates reserve e (ok a) =
      FirstLeast view a candidates ⊎ ((candidates ≡ []) × (reserve ≡ some a))
  ShiftAwareOutcome candidates reserve e (err e') = (candidates ≡ []) × (reserve ≡ none) × (e' ≡ e)

  or_on_call-outcome :
      (e : Thrown) (reserve : Option A) {xs sorted : List A}
      → Ranked view xs sorted
      → ShiftAwareOutcome xs reserve e (or_on_call view e reserve sorted)
  unfolding or_on_call
  or_on_call-outcome e none empty = (refl, refl, refl)
  or_on_call-outcome e (some b) empty = inr (refl, refl)
  or_on_call-outcome e none (ranked f) = inl f
  or_on_call-outcome e (some b) (ranked f) = inl f

  abbrev pub active_only : List A → List A
  active_only = filter (λ a. is_active (view a).staff_state)

  picked_turn :
      (incident : Incident) (i : ℕ) (xs : List A) (o : Option A) (d : Department) (a : A)
      → (pick_turn view incident i xs o d).0 ≡ ok a
      → o ≡ some a
  unfolding pick_turn
  picked_turn incident i xs none d a e = cc
  picked_turn incident i xs (some b) d a e = cc

  turn_active :
      (incident : Incident) (eligible : List A) (d : Option Department) (a : A)
      → (round_robin_assign view incident eligible d).0 ≡ ok a
      → Memᴰ a eligible × (is_active (view a).staff_state ≡ true)
  unfolding round_robin_assign
  turn_active incident eligible none a e = cc
  turn_active incident eligible (some d) a e =
      let xs = active_only eligible in
      let i = or_default d.round_robin_index 0 % length xs in
      filtered_active _ eligible a (λ b h. h)
        (get_elem?-mem xs i a (picked_turn incident i xs (get_elem? xs i) d a e))

  check_target_sound :
      (t : String) (o : Option A) (a : A)
      → check_target view t o ≡ ok a
      → (o ≡ some a) × (is_active (view a).staff_state ≡ true)
  unfolding check_target
  check_target_sound t none a e = cc
  check_target_sound t (some b) a e = ground arith

  target_active :
      (t : Option String) (eligible : List A) (a : A)
      → manual_assign view t eligible ≡ ok a
      → Memᴰ a eligible × (is_active (view a).staff_state ≡ true)
  unfolding manual_assign
  target_active none eligible a e = cc
  target_active (some t) eligible a e = elim (Bool-cases (str_eq t "")) [
    | inl blank ↦ cc (rw blank at e)
    | inr given ↦
        let same_id = λ (b : A). str_eq (view b).id t in
        let (found, good) = check_target_sound t (find same_id eligible) a (rw given at e) in
        ((find_sound same_id eligible a found).0, good)
  ]

  module _ (zone : ℕ → ℕ) (now : ℕ) (target : Option String) (incident : Incident) where
    abbrev pub nobody : Thrown
    nobody = domain (no_staff_available incident.department_id)

    abbrev pub available : List A → List A
    available = filter (λ a. is_available zone now (view a))

    abbrev pub covering : List A → List A
    covering = filter (λ a. covers_window zone now (window_hours incident.sla) (view a))

    abbrev pub reserve : List A → Option A
    reserve = find (λ a. is_reserve zone now (view a))

    -- The least loaded strategy picks, among the candidates that are active and on shift, the first
    -- one with the fewest tasks. It throws only when there is none, and keeps the department.
    pub least_loaded_choice :
        (eligible : List A) (d : Option Department)
        → PicksFirstLeast
            (available eligible)
            nobody
            (assign view zone now least_loaded target incident eligible d).0
          × ((assign view zone now least_loaded target incident eligible d).1 ≡ d)
    unfolding assign
    least_loaded_choice eligible d = (
      first_or-PicksFirstLeast {xs = available eligible} nobody
          (sort-Ranked view (available eligible)),
      refl,
    )

    -- The shift-aware strategy picks the first of the least loaded whose shifts cover the window of
    -- the policy, or of four hours without one; failing these, the first candidate on call; and it
    -- throws when there is neither.
    pub shift_aware_choice :
        (eligible : List A) (d : Option Department)
        → ShiftAwareOutcome
            (covering eligible)
            (reserve eligible)
            nobody
            (assign view zone now shift_aware target incident eligible d).0
    unfolding assign
    shift_aware_choice eligible d =
        or_on_call-outcome nobody (reserve eligible) {xs = covering eligible}
          (sort-Ranked view (covering eligible))

    covering_or_reserve :
        (eligible : List A) (a : A)
        → ShiftAwareOutcome (covering eligible) (reserve eligible) nobody (ok a)
        → Memᴰ a eligible × (is_active (view a).staff_state ≡ true)
    covering_or_reserve eligible a (inl f) =
        filtered_active _ eligible a (covering_active zone now (window_hours incident.sla))
          (FirstLeast-mem f)
    covering_or_reserve eligible a (inr (_, found)) =
        let (in_list, good) = find_sound (λ b. is_reserve zone now (view b)) eligible a found in
        (in_list, reserve_active zone now a good)

    -- Every strategy picks an active staff member among the candidates that it is given.
    pub assign_picks_active :
        (strategy : Strategy) (eligible : List A) (d : Option Department) (a : A)
        → (assign view zone now strategy target incident eligible d).0 ≡ ok a
        → Memᴰ a eligible × (is_active (view a).staff_state ≡ true)
    unfolding assign
    assign_picks_active least_loaded eligible d a e =
        filtered_active _ eligible a (available_active zone now) (
          FirstLeast-mem (
            subst (PicksFirstLeast (available eligible) nobody) e
              (least_loaded_choice eligible d).0))
    assign_picks_active round_robin eligible d a e = turn_active incident eligible d a e
    assign_picks_active shift_aware eligible d a e = covering_or_reserve eligible a (
        subst (ShiftAwareOutcome (covering eligible) (reserve eligible) nobody) e
          (shift_aware_choice eligible d))
    assign_picks_active manual eligible d a e = target_active target eligible a e
