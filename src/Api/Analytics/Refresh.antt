-- ===== src/Api/Analytics/Refresh.antt =====
-- jobs/workers/analytics.worker.js: the numbers that the worker stores for the dashboard, against
-- those that the controller computes.
use mathlib.Core.Path.{subst}
use campusops.Common.{
  ℕ, ◌+◌, ◌≡◌, refl, sym, ap, ◌∙◌, arith, false, String, Option, none, some, List, [], ◌∷◌, str_eq,
  str_eq_iff, or_default, if◌then◌else◌, Bool-cases, inl, inr,
}
use campusops.Common.Exec.{Exec, ok, ◌>>=◌}
use campusops.Common.Text.{or_null, count_of, later_or}
use campusops.Errors.{Thrown}
use campusops.Api.Analytics.{
  Dashboard, compute, Numbers, Body, refreshed, CacheKey, cache_key, Aggregates, Cache, Sums,
  no_sums, add_group, tally, rate, numbers_of, answered, get_dashboard,
}

unfoldable pub total_of : List (String × ℕ) → ℕ
total_of [] = 0
total_of ((s, n) ∷ gs) = n + total_of gs

unfoldable pub worker_numbers : List (String × ℕ) → ℕ → Numbers
unfolding count_of total_of rate
worker_numbers gs breaches = record {
  total_open = or_default (count_of "OPEN" gs) 0;
  total_in_progress = or_default (count_of "IN_PROGRESS" gs) 0;
  total_resolved = or_default (count_of "RESOLVED" gs) 0;
  total_escalated = or_default (count_of "ESCALATED" gs) 0;
  sla_breach_rate = rate breaches (total_of gs);
}

module _ {R H S : Type 0} (q : Aggregates R H S) (cache : Cache R H S) where
  -- The job `refresh-dashboard`
  unfoldable pub refresh_dashboard : (now : ℕ) → Option String → Exec S Thrown (Unit {0})
  unfolding worker_numbers cache_key
  refresh_dashboard now dept = q.by_status (or_null dept) >>= λ groups.
      q.breaches (or_null dept) >>= λ breaches.
      cache.set (cache_key dept) (refreshed (worker_numbers groups breaches) now) 300

-- How many incidents the groups count with the status.
abbrev pub sum_of : String → List (String × ℕ) → ℕ
sum_of status [] = 0
sum_of status ((s, n) ∷ gs) = (if str_eq s status then n else 0) + sum_of status gs

abbrev Absent : String → List (String × ℕ) → Type 0
Absent status [] = Unit
Absent status ((s, n) ∷ gs) = (str_eq s status ≡ false) × Absent status gs

-- No status has two groups.
abbrev pub Distinct : List (String × ℕ) → Type 0
Distinct [] = Unit
Distinct ((s, n) ∷ gs) = Absent s gs × Distinct gs

absent :
    (status : String) (gs : List (String × ℕ))
    → Absent status gs
    → (count_of status gs ≡ none) × (sum_of status gs ≡ 0)
unfolding count_of
absent status [] a = (refl, refl)
absent status ((s, n) ∷ gs) (other, a) =
    let (c, z) = absent status gs a in (rw (c, other) refl, rw other (omega arith))

pub count_of-sum_of :
    (status : String) (gs : List (String × ℕ))
    → Distinct gs
    → or_default (count_of status gs) 0 ≡ sum_of status gs
unfolding count_of
count_of-sum_of status [] d = refl
count_of-sum_of status ((s, n) ∷ gs) (a, d) = elim (Bool-cases (str_eq s status)) [
  | inl t ↦
      let same = (str_eq_iff s status).0 t in
      let (c, z) = absent status gs (subst (λ x. Absent x gs) same a) in rw (c, t, z) (omega arith)
  | inr f ↦ rw f (unset (count_of status gs) (sum_of status gs) (count_of-sum_of status gs d))
]
  where
    unset : (o : Option ℕ) (k : ℕ) → or_default o 0 ≡ k → or_default (later_or o none) 0 ≡ 0 + k
    unset none k h = omega arith
    unset (some m) k h = omega arith

abbrev plus : Sums → (o i r e a : ℕ) → Sums
plus c o i r e a = record {
  open_sum = c.open_sum + o;
  in_progress_sum = c.in_progress_sum + i;
  resolved_sum = c.resolved_sum + r;
  escalated_sum = c.escalated_sum + e;
  all_sum = c.all_sum + a;
}

-- What the groups count, whichever way they are split and ordered.
abbrev pub counted : List (String × ℕ) → Sums
counted gs = record {
  open_sum = sum_of "OPEN" gs;
  in_progress_sum = sum_of "IN_PROGRESS" gs;
  resolved_sum = sum_of "RESOLVED" gs;
  escalated_sum = sum_of "ESCALATED" gs;
  all_sum = total_of gs;
}

abbrev if_in : String → String → ℕ → ℕ
if_in s status n = if str_eq s status then n else 0

add_group-plus :
    (c : Sums) (s : String) (n : ℕ)
    → add_group c (s, n)
      ≡ plus c
          (if_in s "OPEN" n)
          (if_in s "IN_PROGRESS" n)
          (if_in s "RESOLVED" n)
          (if_in s "ESCALATED" n)
          n
unfolding add_group
add_group-plus c s n = elim (Bool-cases (str_eq s "OPEN")) [
  | inl t ↦ rw ((str_eq_iff s "OPEN").0 t) (ground arith)
  | inr f ↦ elim (Bool-cases (str_eq s "IN_PROGRESS")) [
    | inl t ↦ rw ((str_eq_iff s "IN_PROGRESS").0 t) (ground arith)
    | inr g ↦ elim (Bool-cases (str_eq s "RESOLVED")) [
      | inl t ↦ rw ((str_eq_iff s "RESOLVED").0 t) (ground arith)
      | inr h ↦ rw (f, g, h) (ground arith)
    ]
  ]
]

plus-plus :
    (c : Sums) (o i r e a o' i' r' e' a' : ℕ)
    → plus (plus c o i r e a) o' i' r' e' a' ≡ plus c (o + o') (i + i') (r + r') (e + e') (a + a')
plus-plus c o i r e a o' i' r' e' a' = ground arith

tally-plus :
    (gs : List (String × ℕ)) (c : Sums)
    → tally c gs
      ≡ plus c
          (sum_of "OPEN" gs)
          (sum_of "IN_PROGRESS" gs)
          (sum_of "RESOLVED" gs)
          (sum_of "ESCALATED" gs)
          (total_of gs)
unfolding tally total_of
tally-plus [] c = ground arith
tally-plus ((s, n) ∷ gs) c =
    tally-plus gs (add_group c (s, n))
    ∙ ap
        (λ x.
          plus x (sum_of "OPEN" gs) (sum_of "IN_PROGRESS" gs) (sum_of "RESOLVED" gs)
            (sum_of "ESCALATED" gs) (total_of gs))
        (add_group-plus c s n)
    ∙ plus-plus c (if_in s "OPEN" n) (if_in s "IN_PROGRESS" n) (if_in s "RESOLVED" n)
        (if_in s "ESCALATED" n) n (sum_of "OPEN" gs) (sum_of "IN_PROGRESS" gs)
        (sum_of "RESOLVED" gs) (sum_of "ESCALATED" gs) (total_of gs)

pub tally-counted : (gs : List (String × ℕ)) → tally no_sums gs ≡ counted gs
tally-counted gs = tally-plus gs no_sums ∙ ground arith

worker_numbers-numbers_of :
    (gs : List (String × ℕ)) (breaches : ℕ)
    → Distinct gs
    → worker_numbers gs breaches ≡ numbers_of (tally no_sums gs) breaches
unfolding worker_numbers numbers_of
worker_numbers-numbers_of gs breaches d =
    rw
      (
        count_of-sum_of "OPEN" gs d,
        count_of-sum_of "IN_PROGRESS" gs d,
        count_of-sum_of "RESOLVED" gs d,
        count_of-sum_of "ESCALATED" gs d,
        tally-counted gs,
      )
      refl

module _ {R H S : Type 0} (q : Aggregates R H S) (cache : Cache R H S) where
  -- What is set is got until it expires.
  abbrev pub KeepsBody : Type 0
  KeepsBody =
      (k : CacheKey) (b : Body R H) (ttl : ℕ) (s t : S)
      → cache.set k b ttl s ≡ (ok tt, t)
      → (u : S) × (cache.get k t ≡ (ok (some b), u))

  -- The queries answer of the incidents and change nothing, and a write to the cache leaves what they
  -- count.
  pub record IsReading (groups : S → Option String → List (String × ℕ))
      (breaches : S → Option String → ℕ) : Type 0 where
    pub grouped : (d : Option String) (s : S) → q.by_status d s ≡ (ok (groups s d), s)
    pub breached : (d : Option String) (s : S) → q.breaches d s ≡ (ok (breaches s d), s)
    pub categories :
        (d : Option String) (s : S) → (cs : List (String × ℕ)) × (q.by_category d s ≡ (ok cs, s))
    pub priorities :
        (d : Option String) (s : S) → (ps : List (String × ℕ)) × (q.by_priority d s ≡ (ok ps, s))
    pub recents : (d : Option String) (s : S) → (rs : List R) × (q.recent d s ≡ (ok rs, s))
    pub averages : (d : Option String) (s : S) → (h : Option H) × (q.average d s ≡ (ok h, s))
    pub cached :
        (k : CacheKey) (b : Body R H) (ttl : ℕ) (s t : S)
        → cache.set k b ttl s ≡ (ok tt, t)
        → (groups t ≡ groups s) × (breaches t ≡ breaches s)

  module _ (groups : S → Option String → List (String × ℕ)) (breaches : S → Option String → ℕ)
      (reading : IsReading groups breaches) where
    compute_numbers :
        (dept : Option String) (s : S)
        → (d : Dashboard R H) × (compute q dept s ≡ (ok d, s))
          × (d.numbers ≡ numbers_of (tally no_sums (groups s dept)) (breaches s dept))
    unfolding compute
    compute_numbers dept s =
        let (cs, of_category) = reading.categories dept s in
        let (ps, of_priority) = reading.priorities dept s in
        let (rs, recent) = reading.recents dept s in
        let (h, average) = reading.averages dept s in
        (
          record {
            numbers = numbers_of (tally no_sums (groups s dept)) (breaches s dept);
            avg_resolution_hours = h;
            by_category = cs;
            by_priority = ps;
            recent_activity = rs;
          },
          rw
              (
                reading.grouped dept s,
                of_category,
                of_priority,
                reading.breached dept s,
                recent,
                average,
              )
              refl,
          refl,
        )

  -- After the job has refreshed the numbers of a department or of the campus, the dashboard answers
  -- with what the job stored: the numbers are those of the object that the controller computes of
  -- the same incidents, and the lists that it would add are not there. No status has two groups, and
  -- the cache keeps what is set.
  pub refresh_dashboard-get_dashboard :
      (groups : S → Option String → List (String × ℕ)) (breaches : S → Option String → ℕ)
      → IsReading groups breaches
      → KeepsBody
      → (now : ℕ) (dept : Option String) (s t : S) → Distinct (groups s (or_null dept))
      → refresh_dashboard q cache now dept s ≡ (ok tt, t)
      → (d : Dashboard R H) × (compute q (or_null dept) t ≡ (ok d, t))
        × ((get_dashboard q cache dept t).0 ≡ ok (refreshed d.numbers now))
  unfolding refresh_dashboard get_dashboard answered
  refresh_dashboard-get_dashboard groups breaches reading keeps now dept s t distinct done =
      let gs = groups s (or_null dept) in
      let n = breaches s (or_null dept) in
      let body : Body R H = refreshed (worker_numbers gs n) now in
      let set : cache.set (cache_key dept) body 300 s ≡ (ok tt, t) =
        rw (reading.grouped (or_null dept) s, reading.breached (or_null dept) s) at done in
      let (v, got) = keeps (cache_key dept) body 300 s t set in
      let (as_grouped, as_late) = reading.cached (cache_key dept) body 300 s t set in
      let (d, computed, numbers) = compute_numbers groups breaches reading (or_null dept) t in
      let same : worker_numbers gs n ≡ d.numbers =
        worker_numbers-numbers_of gs n distinct ∙ sym (rw (as_grouped, as_late) at numbers) in
      (d, computed, rw got (ap (λ k. ok (refreshed k now)) same))
