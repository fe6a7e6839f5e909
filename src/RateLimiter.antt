-- ===== src/RateLimiter.antt =====
-- api/middleware/rateLimiter.js: a sliding window over a sorted set of request times.
-- The set under one key is the list of its scores; Redis is what `run_pipeline` does to it, by the
-- documented behaviour of the commands. A pipeline that fails is `none`: the limiter then admits.
-- The key expires after a window without a request, when every entry is stale already.
pub mod Window
mod Examples
use campusops.Common.{
  ℕ, ◌+◌, ◌-◌, Bool, true, false, Option, none, some, List, [], ◌∷◌, ltb, leb, not, length, filter,
  if◌then◌else◌,
}

-- `zremrangebyscore(key, 0, now - windowMs)` keeps the scores above `now - windowMs`.
abbrev pub evict : (window_ms now : ℕ) → List ℕ → List ℕ
evict window_ms now = filter (λ t. ltb now (t + window_ms))

-- The pipeline: evict, add this request, count.
abbrev pub run_pipeline : ℕ → ℕ → List ℕ → List ℕ × ℕ
run_pipeline window_ms now scores =
    let kept = now ∷ evict window_ms now scores in (kept, length kept)

pub data Verdict : Type 0 where
  -- with the two headers: the limit, and what remains
  admitted : (limit remaining : ℕ) → Verdict
  rate_limited : (limit remaining : ℕ) → Verdict
  failed_open : Verdict

-- `Math.max(0, max - count)` is truncated subtraction.
unfoldable pub judge : ℕ → ℕ → Verdict
judge max count =
    if ltb max count then rate_limited max (max - count) else admitted max (max - count)

-- One request at `now`: what becomes of it, and the set behind it.
unfoldable pub rate_limiter : (window_ms max : ℕ) (available : Bool) → ℕ → List ℕ → Verdict × List ℕ
unfolding judge
rate_limiter window_ms max true now scores =
    let (kept, count) = run_pipeline window_ms now scores in (judge max count, kept)
rate_limiter window_ms max false now scores = (failed_open, scores)
