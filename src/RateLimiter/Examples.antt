-- ===== src/RateLimiter/Examples.antt =====
-- The limiter at two requests in each window of ten.
use campusops.Common.{ℕ, ◌≤◌, List, ◌∷◌, [], arith}
use campusops.RateLimiter.Window.{serve, recent, window_bound}

abbrev times : List ℕ
times = 12 ∷ 11 ∷ 3 ∷ 1 ∷ []

window_bound_example : recent 10 2 14 (serve 10 2 times).1 ≤ 2
window_bound_example = window_bound 10 2 times 14 (ground arith) (ground arith)
