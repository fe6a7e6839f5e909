-- ===== src/RateLimiter/Window.antt =====
-- How many requests a window admits.
use campusops.Common.{
  ℕ, ◌+◌, ◌≤◌, ◌<◌, ◌≡◌, refl, Bool, true, false, List, [], ◌∷◌, arith, ltb, length, if◌then◌else◌,
  All, ◌↔◌, ◌∙◌,
}
use campusops.RateLimiter.{evict, Verdict, admitted, rate_limiter}

-- The requests admitted, latest first, of a run that handles the given times, earliest last.
abbrev pub is_admitted : Verdict → Bool
is_admitted (admitted l r) = true
is_admitted _ = false

module _ (window_ms max : ℕ) where
  -- The set and the times admitted after a sequence of requests, the latest at the head.
  abbrev pub serve : List ℕ → List ℕ × List ℕ
  serve [] = ([], [])
  serve (now ∷ earlier) =
      let (scores, passed) = serve earlier in
      let (v, kept) = rate_limiter window_ms max true now scores in
      (kept, if is_admitted v then now ∷ passed else passed)

  -- Times that do not decrease, the latest at the head.
  abbrev pub Decreasing : List ℕ → Type 0
  Decreasing [] = Unit
  Decreasing (t ∷ ts) = All (λ s. s ≤ t) ts × Decreasing ts

  -- How many of the times lie in the window that ends at `now`.
  abbrev pub recent : ℕ → List ℕ → ℕ
  recent now [] = 0
  recent now (t ∷ ts) = (if ltb now (t + window_ms) then 1 else 0) + recent now ts

  length-evict : (now : ℕ) (ts : List ℕ) → length (evict window_ms now ts) ≡ recent now ts
  length-evict now [] = refl
  length-evict now (t ∷ ts) = ground (arith, length-evict now ts)

  recent-evict :
      (t now : ℕ) (ts : List ℕ) → t ≤ now → recent now (evict window_ms t ts) ≡ recent now ts
  recent-evict t now [] h = refl
  recent-evict t now (s ∷ ts) h = ground (arith, recent-evict t now ts h)

  recent_antitone : (t now : ℕ) (ts : List ℕ) → t ≤ now → recent now ts ≤ recent t ts
  recent_antitone t now [] h = omega arith
  recent_antitone t now (s ∷ ts) h = ground (arith, recent_antitone t now ts h)

  -- The set counts every request of the window, refused ones too.
  serve-recent :
      (ts : List ℕ) (now : ℕ)
      → Decreasing ts
      → All (λ s. s ≤ now) ts
      → recent now (serve ts).0 ≡ recent now ts
  unfolding rate_limiter
  serve-recent [] now d a = refl
  serve-recent (t ∷ ts) now (late, d) (h, a) =
      omega (arith, recent-evict t now (serve ts).0 h, serve-recent ts now d a)

  passed-recent : (ts : List ℕ) (now : ℕ) → recent now (serve ts).1 ≤ recent now ts
  unfolding rate_limiter
  passed-recent [] now = omega arith
  passed-recent (t ∷ ts) now = ground (arith, passed-recent ts now)

  -- A request is admitted exactly when fewer than `max` requests came in the window before it,
  -- those refused included.
  pub admitted_iff :
      (ts : List ℕ) (now : ℕ)
      → Decreasing ts
      → All (λ s. s ≤ now) ts
      → (is_admitted (rate_limiter window_ms max true now (serve ts).0).0 ≡ true)
        ↔ (recent now ts < max)
  unfolding rate_limiter
  admitted_iff ts now d a =
      let count = length-evict now (serve ts).0 ∙ serve-recent ts now d a in
      (λ h. ground arith, λ h. ground arith)

  bound_step :
      (t : ℕ) (ts : List ℕ) (now : ℕ)
      → Decreasing (t ∷ ts)
      → t ≤ now
      → recent now (serve ts).1 ≤ max
      → recent now (serve (t ∷ ts)).1 ≤ max
  unfolding rate_limiter
  bound_step t ts now (late, d) h ih =
      let count = length-evict t (serve ts).0 ∙ serve-recent ts t d late in
      ground (arith, recent_antitone t now (serve ts).1 h, passed-recent ts t)

  -- In any window at most `max` requests are admitted, while the clock does not go back and the
  -- store answers.
  pub window_bound :
      (ts : List ℕ) (now : ℕ)
      → Decreasing ts
      → All (λ s. s ≤ now) ts
      → recent now (serve ts).1 ≤ max
  window_bound [] now d a = omega arith
  window_bound (t ∷ ts) now d (h, a) = bound_step t ts now d h (window_bound ts now d.1 a)
