-- ===== src/Api/Paging.antt =====
-- The window of a paged list in userController.js and alertController.js, from the query's texts.
-- `parse_int` reads the digits exactly; a JavaScript number is exact up to 2 ^ 53.
use campusops.Common.{
  ℕ, zero, suc, ◌+◌, ◌*◌, ◌-◌, ◌≤◌, ◌≡◌, refl, arith, Bool, Option, none, some, [], ◌∷◌, ◌&&◌, leb,
  ◌==◌, if◌then◌else◌,
}
use campusops.Common.Int.{ℤ, pos, negsuc, min_ℕ, max_ℕ}
use campusops.Common.Text.{Text, trim_start}

abbrev is_digit : ℕ → Bool
is_digit c = leb b'0' c && leb c b'9'

-- The number of the digits in front, onto what was read before them.
unfoldable pub leading : ℕ → Text → ℕ
leading n [] = n
leading n (c ∷ s) = let rest = leading (n * 10 + (c - b'0')) s in if is_digit c then rest else n

negated : ℕ → ℤ
negated n = if n == 0 then pos 0 else negsuc (n - 1)

digits : (ℕ → ℤ) → Text → Option ℤ
unfolding leading
digits sign [] = none
digits sign (c ∷ s) = if is_digit c then some (sign (leading 0 (c ∷ s))) else none

signed : Text → Option ℤ
unfolding digits negated
signed [] = none
signed (c ∷ s) =
    if c == b'-' then digits negated s else if c == b'+' then digits pos s else digits pos (c ∷ s)

-- `parseInt(s, 10)`: `none` is NaN.
unfoldable pub parse_int : Text → Option ℤ
unfolding signed trim_start
parse_int s = signed (trim_start s)

given : Option Text → ℤ → Option ℤ
unfolding parse_int
given none d = some d
given (some s) d = parse_int s

at_least_one : Option ℤ → ℤ
unfolding max_ℕ
at_least_one none = pos 1
at_least_one (some n) = max_ℕ n 1

-- `Math.max(1, parseInt(page, 10)) || 1`
unfoldable pub page_num : Option Text → ℤ
unfolding given at_least_one
page_num page = at_least_one (given page (pos 1))

-- `n || 20`
or_twenty : Option ℤ → ℤ
or_twenty none = pos 20
or_twenty (some (pos n)) = if n == 0 then pos 20 else pos n
or_twenty (some n) = n

-- `Math.max(1, Math.min(100, parseInt(limit, 10) || 20))`
unfoldable pub limit_num : Option Text → ℤ
unfolding given or_twenty min_ℕ max_ℕ
limit_num limit = max_ℕ (min_ℕ (or_twenty (given limit (pos 20))) 100) 1

at_least_one_bound : (o : Option ℤ) → (n : ℕ) × (at_least_one o ≡ pos n) × (1 ≤ n)
unfolding at_least_one
at_least_one_bound none = (1, refl, omega arith)
at_least_one_bound (some (pos zero)) = (1, refl, omega arith)
at_least_one_bound (some (pos (suc k))) = (suc k, ground arith, omega arith)
at_least_one_bound (some (negsuc n)) = (1, refl, omega arith)

capped : (z : ℤ) → (n : ℕ) × (max_ℕ (min_ℕ z 100) 1 ≡ pos n) × (1 ≤ n) × (n ≤ 100)
unfolding min_ℕ max_ℕ
capped (pos n) =
    (if leb n 0 then 1 else if leb 100 n then 100 else n, ground arith, ground arith, ground arith)
capped (negsuc n) = (1, refl, omega arith, omega arith)

-- Whatever the texts of a query are, the page is at least one, and the limit between one and a
-- hundred.
pub window_bounds :
    (page limit : Option Text)
    → (p n : ℕ) × (page_num page ≡ pos p)
      × (limit_num limit ≡ pos n)
      × (1 ≤ p)
      × (1 ≤ n)
      × (n ≤ 100)
unfolding page_num limit_num
window_bounds page limit =
    let (p, e, h) = at_least_one_bound (given page (pos 1)) in
    let (n, e', h', c) = capped (or_twenty (given limit (pos 20))) in (p, n, e, e', h, h', c)
