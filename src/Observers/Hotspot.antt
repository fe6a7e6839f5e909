-- ===== src/Observers/Hotspot.antt =====
-- domain/observers/HotspotDetector.js: the counter of reports at a place, and its alerts.
-- The two commands of Redis are a parameter.
use Prim.Native.String.{◌++◌ as ◌+++◌}
use campusops.Common.{
  ℕ, zero, suc, ◌+◌, ◌-◌, ◌<◌, ◌≡◌, refl, ◌∙◌, inl, inr, arith, String, true, false, not, Option,
  none, some, List, [], ◌∷◌, leb, leb→le, str_eq, if◌then◌else◌, Bool-cases,
}
use campusops.Common.Exec.{Exec, Result, ok, pure, ◌>>=◌}
use campusops.Errors.{Thrown}
use campusops.Incident.{Incident}

abbrev pub hotspot_threshold : ℕ
hotspot_threshold = 3

abbrev pub hotspot_ttl_seconds : ℕ
hotspot_ttl_seconds = 86400

pub data Severity : Type 0 where
  warning high critical : Severity

-- What is emitted to the administrators; the message is a function of the rest.
pub record HotspotAlert : Type 0 where
  pub block : String
  pub room : Option String
  pub count : ℕ
  pub severity : Severity

-- `_severity(count)`
unfoldable pub severity_of : ℕ → Severity
severity_of count = if leb 10 count then critical else if leb 6 count then high else warning

unfoldable pub hotspot_key : String → Option String → String
hotspot_key block none = "hotspot:" +++ block
hotspot_key block (some room) =
    if str_eq room "" then "hotspot:" +++ block else "hotspot:" +++ (block +++ (":" +++ room))

pub record Counters (S : Type 0) : Type 0 where
  pub incr : String → Exec S Thrown ℕ
  pub expire : String → ℕ → Exec S Thrown (Unit {0})

abbrev pub alert_at : String → Option String → ℕ → Option HotspotAlert
alert_at block room n =
    if leb hotspot_threshold n
    then some (record { block = block; room = room; count = n; severity = severity_of n })
    else none

module _ {S : Type 0} (redis : Counters S) where
  -- What `handle` does at a place: the alert that it emits, if any.
  count_at : String → Option String → Exec S Thrown (Option HotspotAlert)
  count_at block room = redis.incr (hotspot_key block room) >>= λ n.
      redis.expire (hotspot_key block room) hotspot_ttl_seconds >>= λ u.
      pure (alert_at block room n)

  detect : Option String → Option String → Exec S Thrown (Option HotspotAlert)
  unfolding count_at
  detect none room = pure none
  detect (some block) room = if str_eq block "" then pure none else count_at block room

  -- `handle(eventType, payload)`
  unfoldable pub handle : String → Incident → Exec S Thrown (Option HotspotAlert)
  unfolding detect
  handle type i =
      if not (str_eq type "INCIDENT_CREATED")
      then pure none
      else detect i.location.block i.location.room

  -- `n` reports at one place, and the alerts that they raise.
  unfoldable pub report_all : ℕ → Incident → S → List (Result Thrown (Option HotspotAlert)) × S
  report_all zero i s = ([], s)
  report_all (suc n) i s =
      let (r, t) = handle "INCIDENT_CREATED" i s in let (rs, u) = report_all n i t in (r ∷ rs, u)

  -- What the code relies on of Redis: within the time to live, a counter counts.
  pub record Counts (count : S → String → ℕ) : Type 0 where
    pub increments : (k : String) (s : S) → (redis.incr k s).0 ≡ ok (count s k + 1)
    pub grows : (k : String) (s : S) → count (redis.incr k s).1 k ≡ count s k + 1
    pub expires : (k : String) (n : ℕ) (s : S) → (redis.expire k n s).0 ≡ ok tt
    pub stays : (k : String) (n : ℕ) (s : S) → count (redis.expire k n s).1 k ≡ count s k

abbrev pub alerts : List (Result Thrown (Option HotspotAlert)) → ℕ
alerts [] = 0
alerts (ok (some a) ∷ rs) = suc (alerts rs)
alerts (r ∷ rs) = alerts rs

below_three : (n : ℕ) → leb 3 n ≡ false → n < 3
below_three n h = ground arith

alerts_loud :
    (block : String) (room : Option String) (n : ℕ)
    (rs : List (Result Thrown (Option HotspotAlert)))
    → leb hotspot_threshold n ≡ true
    → alerts (ok (alert_at block room n) ∷ rs) ≡ suc (alerts rs)
alerts_loud block room n rs h = rw h refl

alerts_quiet :
    (block : String) (room : Option String) (n : ℕ)
    (rs : List (Result Thrown (Option HotspotAlert)))
    → leb hotspot_threshold n ≡ false
    → alerts (ok (alert_at block room n) ∷ rs) ≡ alerts rs
alerts_quiet block room n rs h = rw h refl

module _ {S : Type 0} (redis : Counters S) (count : S → String → ℕ) where
  -- A report at a place with `n` reports before it is counted, and raises an alert exactly from the
  -- third on, with the severity of the count.
  counted :
      Counts redis count
      → (i : Incident) (block : String) (s : S) → i.location.block ≡ some block
      → str_eq block "" ≡ false
      → (t : S) × (handle redis "INCIDENT_CREATED" i s ≡ (
        ok (alert_at block i.location.room (count s (hotspot_key block i.location.room) + 1)),
        t,
      ))
        × (count t (hotspot_key block i.location.room)
            ≡ count s (hotspot_key block i.location.room) + 1)
  unfolding handle detect count_at
  counted laws i block s at given =
      let k = hotspot_key block i.location.room in
      let t = (redis.incr k s).1 in
      (
        (redis.expire k hotspot_ttl_seconds t).1,
        rw (at, given, laws.increments k s, laws.expires k hotspot_ttl_seconds t) refl,
        laws.stays k hotspot_ttl_seconds t ∙ laws.grows k s,
      )

  step :
      (n : ℕ) (i : Incident) (s t : S) (r : Result Thrown (Option HotspotAlert))
      → handle redis "INCIDENT_CREATED" i s ≡ (r, t)
      → alerts (report_all redis (suc n) i s).0 ≡ alerts (r ∷ (report_all redis n i t).0)
  unfolding report_all
  step n i s t r h = rw h refl

  -- Among `n` reports at one place within the time to live, all but the first two that the counter
  -- saw raise an alert.
  pub report_all-alerts :
      Counts redis count
      → (n : ℕ) (i : Incident) (block : String) (s : S) → i.location.block ≡ some block
      → str_eq block "" ≡ false
      → alerts (report_all redis n i s).0 ≡ n - (2 - count s (hotspot_key block i.location.room))
  unfolding report_all
  report_all-alerts laws zero i block s at given = omega arith
  report_all-alerts laws (suc n) i block s at given =
      let (t, handled, grown) = counted laws i block s at given in
      let c = count s (hotspot_key block i.location.room) in
      let one = step n i s t (ok (alert_at block i.location.room (c + 1))) handled in
      let rest = report_all-alerts laws n i block t at given in
      elim (Bool-cases (leb hotspot_threshold (c + 1))) [
        | inl loud ↦
            let more = alerts_loud block i.location.room (c + 1) (report_all redis n i t).0 loud in
            let many = leb→le 3 (c + 1) loud in omega arith
        | inr quiet ↦
            let same =
              alerts_quiet block i.location.room (c + 1) (report_all redis n i t).0 quiet in
            let few = below_three (c + 1) quiet in omega arith
      ]
