-- ===== src/Api/Alerts/Listing.antt =====
-- api/controllers/alertController.js: the list of alerts, `listAlerts`.
use campusops.Common.{
  ℕ, zero, suc, ◌*◌, ◌≤◌, ◌≡◌, refl, arith, String, Option, List, take, drop, length,
}
use campusops.Common.Exec.{Exec, ok, pure, ◌>>=◌}
use campusops.Common.Int.{ℤ, pos, decr, times, pos_part}
use campusops.Common.Text.{Text, or_null}
use campusops.Errors.{Thrown}
use campusops.Api.Alerts.{AlertRow}
use campusops.Api.Paging.{page_num, limit_num, window_bounds}

pub record AlertFilters : Type 0 where
  pub type : Option String
  pub severity : Option String
  pub scope_target : Option String

pub record AlertQuery : Type 0 where
  pub filters : AlertFilters
  pub page : Option Text
  pub limit : Option Text

-- The two calls of `prisma.$transaction`; the newest alerts come first.
pub record AlertTable (S : Type 0) : Type 0 where
  pub count : AlertFilters → Exec S Thrown ℕ
  pub find_many : AlertFilters → (skip take : ℤ) → Exec S Thrown (List AlertRow)

pub record AlertPage : Type 0 where
  pub alerts : List AlertRow
  pub total : ℕ
  pub page : ℤ
  pub limit : ℤ

unfoldable pub alert_where : AlertFilters → AlertFilters
alert_where f = record {
  type = or_null f.type;
  severity = or_null f.severity;
  scope_target = or_null f.scope_target;
}

one_less : (p : ℕ) → 1 ≤ p → (k : ℕ) × (p ≡ suc k)
one_less zero h = absurd (omega arith)
one_less (suc k) h = (k, refl)

alert_skip : (k n : ℕ) → times (pos_part (decr (pos (suc k)))) (pos n) ≡ pos (k * n)
unfolding times decr
alert_skip k n = let before : decr (pos (suc k)) ≡ pos k = ground arith in rw before refl

module _ {S : Type 0} (table : AlertTable S) where
  -- `listAlerts`
  unfoldable pub list_alerts : AlertQuery → Exec S Thrown AlertPage
  unfolding alert_where
  list_alerts q = do
    let page = page_num q.page
    let limit = limit_num q.limit
    total ← table.count (alert_where q.filters)
    alerts ← table.find_many (alert_where q.filters) (times (pos_part (decr page)) limit) limit
    pure (record { alerts = alerts; total = total; page = page; limit = limit })

  -- What the database finds: a window of the alerts that meet the filters, in their order.
  pub record IsWindowed (matching : S → AlertFilters → List AlertRow) : Type 0 where
    pub window :
        (f : AlertFilters) (k n : ℕ) (s : S)
        → table.find_many f (pos k) (pos n) s ≡ (ok (take n (drop k (matching s f))), s)
    pub counted : (f : AlertFilters) (s : S) → table.count f s ≡ (ok (length (matching s f)), s)

  -- Whatever the texts of the page and the limit are, the answer is a window of between one and a
  -- hundred of the alerts that meet the filters, at a multiple of its length, and the number of all.
  pub list_alerts-window :
      (matching : S → AlertFilters → List AlertRow)
      → IsWindowed matching
      → (q : AlertQuery) (s : S)
      → (p n : ℕ) × (1 ≤ n)
        × (n ≤ 100)
        × (list_alerts q s ≡ (
          ok (record {
            alerts = take n (drop (p * n) (matching s (alert_where q.filters)));
            total = length (matching s (alert_where q.filters));
            page = pos (suc p);
            limit = pos n;
          }),
          s,
        ))
  unfolding list_alerts
  list_alerts-window matching rows q s =
      let (page, n, is_page, is_limit, low, some_rows, few) = window_bounds q.page q.limit in
      let f = alert_where q.filters in
      let (k, same) = one_less page low in
      (
        k,
        n,
        some_rows,
        few,
        rw (is_page, same, is_limit, rows.counted f s, alert_skip k n, rows.window f (k * n) n s)
            refl,
      )
