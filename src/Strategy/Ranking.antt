-- ===== src/Strategy/Ranking.antt =====
-- The head of the stable sort is the first of the least loaded (AssignmentStrategy.js).
use campusops.Common.{◌+◌, ◌<◌, ◌≡◌, inl, inr, true, false, List, [], ◌∷◌, arith, All, Bool-cases}
use campusops.Common.Int.{ℤ, pos_part, neg_part, ◌≤ℤ◌, ltb_ℤ}
use campusops.User.{Staff}
use campusops.Strategy.{task_count, insert, sort}

abbrev pub ◌<ℤ◌ : ℤ → ℤ → Type 0
◌<ℤ◌ a b = pos_part a + neg_part b < pos_part b + neg_part a

ltb_ℤ→lt : (a b : ℤ) → ltb_ℤ a b ≡ true → ◌<ℤ◌ a b
ltb_ℤ→lt a b h = ground arith

not-ltb_ℤ→le : (a b : ℤ) → ltb_ℤ a b ≡ false → b ≤ℤ a
not-ltb_ℤ→le a b h = ground arith

module _ {A : Type 0} (view : A → Staff) where
  -- `a` is the first element of the list with the fewest tasks: those before it have more, and those
  -- after it have no fewer.
  pub data FirstLeast (a : A) : List A → Type 0 where
    here :
        {xs : List A} → All (λ b. task_count view a ≤ℤ task_count view b) xs → FirstLeast a (a ∷ xs)
    there :
        {b : A} {xs : List A}
        → ◌<ℤ◌ (task_count view a) (task_count view b)
        → FirstLeast a xs
        → FirstLeast a (b ∷ xs)

  All-weaken :
      (a b : A) (xs : List A)
      → task_count view a ≤ℤ task_count view b
      → All (λ c. task_count view b ≤ℤ task_count view c) xs
      → All (λ c. task_count view a ≤ℤ task_count view c) xs
  All-weaken a b [] h k = tt
  All-weaken a b (c ∷ xs) h k = (omega arith, All-weaken a b xs h k.1)

  FirstLeast-lower :
      {a : A} {xs : List A} (b : A)
      → task_count view b ≤ℤ task_count view a
      → FirstLeast a xs
      → All (λ c. task_count view b ≤ℤ task_count view c) xs
  FirstLeast-lower {a} b h (here {xs = xs} k) = (h, All-weaken b a xs h k)
  FirstLeast-lower {a} b h (there lt f) = (omega arith, FirstLeast-lower b h f)

  -- The shape of a sorted list: its head is the first least of what was sorted.
  pub data Ranked : List A → List A → Type 0 where
    empty : Ranked [] []
    ranked : {xs : List A} {a : A} {rest : List A} → FirstLeast a xs → Ranked xs (a ∷ rest)

  Ranked-insert :
      (a : A) (xs sorted : List A) → Ranked xs sorted → Ranked (a ∷ xs) (insert view a sorted)
  unfolding insert
  Ranked-insert a [] [] empty = ranked (here tt)
  Ranked-insert a (_ ∷ _) [] r = elim r [ ]
  Ranked-insert a xs (b ∷ rest) (ranked f) =
      elim (Bool-cases (ltb_ℤ (task_count view b) (task_count view a))) [
        | inl less ↦
            rw less (ranked (there (ltb_ℤ→lt (task_count view b) (task_count view a) less) f))
        | inr more ↦ rw more (
            ranked (
              here
                (FirstLeast-lower a (not-ltb_ℤ→le (task_count view b) (task_count view a) more) f)))
      ]

  pub sort-Ranked : (xs : List A) → Ranked xs (sort view xs)
  unfolding sort
  sort-Ranked [] = empty
  sort-Ranked (a ∷ xs) = Ranked-insert a xs (sort view xs) (sort-Ranked xs)
