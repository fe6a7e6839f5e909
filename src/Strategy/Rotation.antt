-- ===== src/Strategy/Rotation.antt =====
-- The round-robin strategy over a pool that stays the same (AssignmentStrategy.js).
use campusops.Common.{
  ℕ, zero, suc, ◌+◌, ◌-◌, ◌%◌, ◌<◌, ◌≡◌, refl, sym, ◌∙◌, ap, Option, none, some, String, List, [],
  ◌∷◌, arith, get_elem?, length, or_default, leb, if◌then◌else◌, Bool-cases, inl, inr,
}
use native.Mathlib.Nat.{mod-add-mod, mod-mod, mod-lt, mod-eq_of_lt, add-mod_right}
use campusops.Common.Exec.{Result, ok}
use campusops.Errors.{Thrown}
use campusops.User.{Staff}
use campusops.Incident.{Incident}
use campusops.Strategy.{Department, round_robin, pick_turn, assign}
use campusops.Strategy.Choice.{active_only}

get_elem?-lt {ℓ} :
    {A : Type ℓ} (xs : List A) (i : ℕ) → i < length xs → (a : A) × (get_elem? xs i ≡ some a)
get_elem?-lt [] i h = elim h [ ]
get_elem?-lt (x ∷ xs) zero h = (x, refl)
get_elem?-lt (x ∷ xs) (suc i) h = get_elem?-lt xs i (omega arith)

lt-length_of_get_elem? {ℓ} :
    {A : Type ℓ} (xs : List A) (i : ℕ) {a : A} → get_elem? xs i ≡ some a → i < length xs
lt-length_of_get_elem? [] i e = cc
lt-length_of_get_elem? (x ∷ xs) zero e = omega arith
lt-length_of_get_elem? (x ∷ xs) (suc i) e = omega (arith, lt-length_of_get_elem? xs i e)

module _ {A : Type 0} (view : A → Staff) (zone : ℕ → ℕ) (now : ℕ) (target : Option String)
    (incident : Incident) (eligible : List A) where
  abbrev pub turn : Option Department → Result Thrown A × Option Department
  turn d = assign view zone now round_robin target incident eligible d

  -- The department object after some assignments in a row.
  abbrev pub after_turns : ℕ → Department → Option Department
  after_turns zero d = some d
  after_turns (suc k) d = (turn (after_turns k d)).1

  abbrev pub pool_size : ℕ
  pool_size = length (active_only view eligible)

  abbrev pub index : Department → ℕ
  index d = or_default d.round_robin_index 0

  abbrev pub advance : Department → Department
  advance d = record d { round_robin_index = some ((index d % pool_size + 1) % pool_size) }

  pick_turn-some :
      (i : ℕ) (xs : List A) (o : Option A) (d : Department) {a : A}
      → o ≡ some a
      → pick_turn view incident i xs o d
        ≡ (ok a, some (record d { round_robin_index = some ((i + 1) % length xs) }))
  unfolding pick_turn
  pick_turn-some i xs none d e = cc
  pick_turn-some i xs (some b) d e = cc

  one_turn :
      (d : Department)
      → 0 < pool_size
      → (a : A) × (get_elem? (active_only view eligible) (index d % pool_size) ≡ some a)
        × (turn (some d) ≡ (ok a, some (advance d)))
  unfolding assign
  one_turn d h =
      let xs = active_only view eligible in
      let i = index d % pool_size in
      let (a, found) = get_elem?-lt xs i (mod-lt (index d) h) in
      (a, found, pick_turn-some i xs (get_elem? xs i) d found)

  next_index : (i j k n : ℕ) → i % n ≡ (j + k) % n → (i % n + 1) % n % n ≡ (j + suc k) % n
  next_index i j k n e =
      let regroup : j + k + 1 ≡ j + suc k = omega arith in
      mod-mod (i % n + 1) n
      ∙ ap (λ (x : ℕ). (x + 1) % n) e
      ∙ mod-add-mod (j + k) n 1
      ∙ ap (λ (x : ℕ). x % n) regroup

  turns_index :
      (k : ℕ) (d : Department)
      → 0 < pool_size
      → (e : Department) × (after_turns k d ≡ some e)
        × (index e % pool_size ≡ (index d + k) % pool_size)
  turns_index zero d h =
      let same : index d ≡ index d + 0 = omega arith in
      (d, refl, ap (λ (x : ℕ). x % pool_size) same)
  turns_index (suc k) d h =
      let (e, now_at, i) = turns_index k d h in
      let (a, found, done) = one_turn e h in
      (
        advance e,
        ap (λ (o : Option Department). (turn o).1) now_at
            ∙ ap (λ (r : Result Thrown A × Option Department). r.1) done,
        next_index (index e) (index d) k pool_size i,
      )

  -- The `k`-th assignment in a row goes to the active candidate whose place is the index that the
  -- department started from plus `k`, round the pool.
  pub round_robin_rotates :
      (k : ℕ) (d : Department)
      → 0 < pool_size
      → (a : A) × (get_elem? (active_only view eligible) ((index d + k) % pool_size) ≡ some a)
        × ((turn (after_turns k d)).0 ≡ ok a)
  round_robin_rotates k d h =
      let (e, now_at, i) = turns_index k d h in
      let (a, found, done) = one_turn e h in
      (
        a,
        rw i at found,
        ap (λ (o : Option Department). (turn o).0) now_at
            ∙ ap (λ (r : Result Thrown A × Option Department). r.0) done,
      )

  -- The number of turns from the place `i` to the place `p`.
  abbrev wait : ℕ → ℕ → ℕ → ℕ
  wait i p n = if leb i p then p - i else p + n - i

  wait_reaches :
      (j p n : ℕ) → 0 < n → p < n → (wait (j % n) p n < n) × ((j + wait (j % n) p n) % n ≡ p)
  wait_reaches j p n h lt =
      let i = j % n in
      let small : i < n = mod-lt j h in
      let sum = sym (mod-add-mod j n (wait i p n)) in
      elim (Bool-cases (leb i p)) [
        | inl ahead ↦
            let goes : i + wait i p n ≡ p = ground arith in
            (ground arith, sum ∙ ap (λ (x : ℕ). x % n) goes ∙ mod-eq_of_lt lt)
        | inr behind ↦
            let goes : i + wait i p n ≡ p + n = ground arith in
            (ground arith, sum ∙ ap (λ (x : ℕ). x % n) goes ∙ add-mod_right p n ∙ mod-eq_of_lt lt)
      ]

  -- In one round of as many assignments as there are active candidates, each of them has its turn.
  pub round_robin_fair :
      (p : ℕ) (d : Department) (a : A)
      → get_elem? (active_only view eligible) p ≡ some a
      → (k : ℕ) × (k < pool_size) × ((turn (after_turns k d)).0 ≡ ok a)
  round_robin_fair p d a at_p =
      let inside : p < pool_size = lt-length_of_get_elem? (active_only view eligible) p at_p in
      let some_room : 0 < pool_size = omega arith in
      let k = wait (index d % pool_size) p pool_size in
      let (short, reaches) = wait_reaches (index d) p pool_size some_room inside in
      let (b, found, picked) = round_robin_rotates k d some_room in
      let same : some b ≡ some a = sym (rw reaches at found) ∙ at_p in (k, short, picked ∙ cc same)
