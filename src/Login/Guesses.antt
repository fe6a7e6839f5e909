-- ===== src/Login/Guesses.antt =====
-- The bound on the passwords that can be tried.
use campusops.Common.{
  ℕ, zero, suc, ◌+◌, ◌-◌, ◌*◌, ◌<◌, ◌≤◌, ◌≡◌, refl, sym, ◌∙◌, ◌⊎◌, inl, inr, String, true, false,
  Option, none, some, List, [], ◌∷◌, All, arith, Option-cases, Bool-cases, leb, leb→le,
}
use mathlib.Core.Path.{subst}
use campusops.Common.Exec.{Exec, Result, ok, err, pure, ◌>>◌}
use campusops.Errors.{Thrown}
use campusops.Login.{
  unlocked, Account, Backend, Reply, invalid_credentials, account_locked, lock_at, lockout_ms,
  after_failure, login, unlocked, compared,
}
use campusops.Login.Lockout.{
  Attempt, count, counted, written, guesses, login_all, Answers, IsWrong, login_of, wrong_password,
}

reply_of : Result Thrown (Unit {0}) → Result Thrown Reply
reply_of (ok u) = ok invalid_credentials
reply_of (err e) = err e

lock_at_free : (now t : ℕ) → lock_at now (some t) ≡ none → t ≤ now
unfolding lock_at
lock_at_free now t h = ground arith

below_five : (n : ℕ) → leb 5 n ≡ false → n < 5
below_five n h = ground arith

one_lock_less :
    (start until k now later : ℕ)
    → start ≤ now
    → now < until
    → now ≤ later
    → until ≤ start + k * lockout_ms
    → (1 ≤ k) × (until ≤ later + lockout_ms + (k - 1) * lockout_ms)
one_lock_less start until zero now later a b c d = (omega arith, omega arith)
one_lock_less start until (suc k) now later a b c d = (omega arith, omega arith)

All-of {ℓ κ} : {A : Type ℓ} {P : A → Type κ} → ((x : A) → P x) → (xs : List A) → All P xs
All-of f [] = tt
All-of f (x ∷ xs) = (f x, All-of f xs)

failed_count : (later : ℕ) (a : Account) → count (counted (after_failure later a) a) ≡ count a + 1
unfolding after_failure
failed_count later a = refl

still_open :
    (later : ℕ) (a : Account)
    → leb 5 (count a + 1) ≡ false
    → (counted (after_failure later a) a).locked_until ≡ a.locked_until
unfolding after_failure
still_open later a h = rw h refl

locked_now :
    (later : ℕ) (a : Account)
    → leb 5 (count a + 1) ≡ true
    → (counted (after_failure later a) a).locked_until ≡ some (later + lockout_ms)
unfolding after_failure
locked_now later a h = rw h refl

module _ {S : Type 0} (db : Backend S) (rows : S → String → Option Account) where
  -- Attempts in order of their clock, before the time `until`, with passwords that do not match.
  abbrev pub IsAttack : String → ℕ → Attempt → Type 0
  IsAttack h until x = IsWrong db h x × (x.now ≤ x.later) × (x.now < until)

  -- Attempts that find the account unlocked come at `start` or later.
  abbrev Since : ℕ → Option ℕ → Attempt → Type 0
  Since start lock x = lock_at x.now lock ≡ none → start ≤ x.now

  guesses_step :
      (email : String) (x : Attempt) (xs : List Attempt) (s t : S) (r : Result Thrown Reply)
      → login db x.now x.later email x.password s ≡ (r, t)
      → guesses (login_all db email (x ∷ xs) s).0 ≡ guesses (r ∷ (login_all db email xs t).0)
  unfolding login_all
  guesses_step email x xs s t r h = rw h refl

  reply_kept :
      (r : Result Thrown (Unit {0}) × S)
      → ((λ (s : S). r) >> pure invalid_credentials) r.1 ≡ (reply_of r.0, r.1)
  unfolding reply_of
  reply_kept (ok u, t) = refl
  reply_kept (err e, t) = refl

  replied :
      (m : Exec S Thrown (Unit {0})) (s : S)
      → (m >> pure invalid_credentials) s ≡ (reply_of (m s).0, (m s).1)
  unfolding reply_of
  replied m s = reply_kept (m s)

  settled :
      (email : String) (a : Account) (x : Attempt) (s : S) (r : Result Thrown (Unit {0}) × S)
      → login db x.now x.later email x.password s ≡ (reply_of r.0, r.1)
      → rows r.1 email ≡ some (written r.0 (after_failure x.later a) a)
      → ((e : Thrown) × (login db x.now x.later email x.password s ≡ (err e, r.1))
          × (rows r.1 email ≡ some a))
        ⊎ ((login db x.now x.later email x.password s ≡ (ok invalid_credentials, r.1))
            × (rows r.1 email ≡ some (counted (after_failure x.later a) a)))
  unfolding reply_of
  settled email a x s (ok u, t) answer row = inr (answer, row)
  settled email a x s (err e, t) answer row = inl (e, answer, row)

  -- A wrong password on an unlocked account: what is answered, and the row that is left.
  tried :
      Answers db rows
      → (email : String) (a : Account) (x : Attempt) (s : S) → rows s email ≡ some a
      → a.is_active ≡ true
      → lock_at x.now a.locked_until ≡ none
      → IsWrong db a.password_hash x
      → (t : S) × (((e : Thrown) × (login db x.now x.later email x.password s ≡ (err e, t))
            × (rows t email ≡ some a))
          ⊎ ((login db x.now x.later email x.password s ≡ (ok invalid_credentials, t))
              × (rows t email ≡ some (counted (after_failure x.later a) a))))
  unfolding compared
  tried laws email a x s found active free wrong =
      let m = db.update a.id (after_failure x.later a) in
      (
        (m s).1,
        settled email a x s (m s)
            (wrong_password db rows laws email a x s found active free wrong ∙ replied m s)
            (laws.updates email a (after_failure x.later a) s found),
      )

  weaken :
      (start : ℕ) (lock : Option ℕ) (xs : List Attempt)
      → All (λ x. start ≤ x.now) xs
      → All (Since start lock) xs
  weaken start lock [] h = tt
  weaken start lock (x ∷ xs) (h, hs) = (λ free. h, weaken start lock xs hs)

  no_guesses : (email : String) (s : S) → guesses (login_all db email [] s).0 ≡ 0
  unfolding login_all
  no_guesses email s = refl

  guess_bound_from :
      Answers db rows
      → (email : String) (xs : List Attempt) (a : Account) (s : S) (start until k : ℕ)
      → rows s email ≡ some a
      → a.is_active ≡ true
      → All (IsAttack a.password_hash until) xs
      → All (Since start a.locked_until) xs
      → until ≤ start + k * lockout_ms
      → guesses (login_all db email xs s).0 ≤ 4 - count a + k
  unfolding unlocked
  guess_bound_from laws email [] a s start until k found active attack since fits =
      let none_yet = no_guesses email s in omega arith
  guess_bound_from laws email (x ∷ xs) a s start until k found active
        ((wrong, order, before), attack) (at, since) fits =
      elim (Option-cases (lock_at x.now a.locked_until)) [
        | inr (t, lock) ↦
            let refused =
              guesses_step email x xs s s (ok (account_locked t))
                (login_of db rows laws email a x s found active ∙ rw lock refl) in
            let rest =
              guess_bound_from laws email xs a s start until k found active attack since fits in
            omega arith
        | inl free ↦
            let (t, result) = tried laws email a x s found active free wrong in
            elim result [
              | inl (e, answer, row) ↦
                  let step = guesses_step email x xs s t (err e) answer in
                  let rest =
                    guess_bound_from laws email xs a t start until k row active attack since fits in
                  omega arith
              | inr (answer, row) ↦ elim (Bool-cases (leb 5 (count a + 1))) [
                | inl full ↦
                    let b = counted (after_failure x.later a) a in
                    let end = x.later + lockout_ms in
                    let step = guesses_step email x xs s t (ok invalid_credentials) answer in
                    let shut =
                      subst (λ l. All (Since end l) xs) (sym (locked_now x.later a full))
                        (All-of (λ y. lock_at_free y.now end) xs) in
                    let enough =
                      one_lock_less start until k x.now x.later (at free) before order fits in
                    let rest =
                      guess_bound_from laws email xs b t end until (k - 1) row active attack shut
                        enough.1 in
                    let more = failed_count x.later a in
                    let many = leb→le 5 (count a + 1) full in
                    let some_left = enough.0 in omega arith
                | inr open_ ↦
                    let b = counted (after_failure x.later a) a in
                    let step = guesses_step email x xs s t (ok invalid_credentials) answer in
                    let still =
                      subst (λ l. All (Since start l) xs) (sym (still_open x.later a open_))
                        since in
                    let rest =
                      guess_bound_from laws email xs b t start until k row active attack still
                        fits in
                    let more = failed_count x.later a in
                    let few = below_five (count a + 1) open_ in omega arith
              ]
            ]
      ]

  -- Of a run of sign-in requests for an active account whose passwords are all wrong, and whose times
  -- lie within `k` quarters of an hour from `start`, at most `k` more are answered as wrong than the
  -- failures that the account has left before the fifth.
  pub guess_bound :
      Answers db rows
      → (email : String) (xs : List Attempt) (a : Account) (s : S) (start until k : ℕ)
      → rows s email ≡ some a
      → a.is_active ≡ true
      → All (IsAttack a.password_hash until) xs
      → All (λ x. start ≤ x.now) xs
      → until ≤ start + k * lockout_ms
      → guesses (login_all db email xs s).0 ≤ 4 - count a + k
  guess_bound laws email xs a s start until k found active attack at fits =
      guess_bound_from laws email xs a s start until k found active attack
        (weaken start a.locked_until xs at) fits
