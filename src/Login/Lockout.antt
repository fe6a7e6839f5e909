-- ===== src/Login/Lockout.antt =====
-- How many passwords can be tried against an account.
-- `Answers` is what the code relies on of the database client: a look-up shows the row and leaves the
-- table, and an update writes the counters of that row, or fails and leaves it.
use campusops.Common.{
  ℕ, suc, ◌<◌, ◌≡◌, refl, ◌∙◌, String, true, false, Option, none, some, List, [], ◌∷◌, or_default,
  lt→ltb,
}
use campusops.Common.Exec.{Result, ok, err}
use campusops.Errors.{Thrown}
use campusops.Login.{
  Account, Counters, Backend, Reply, invalid_credentials, account_locked, lock_at, login,
  login_found, unlocked, compared,
}

-- A request to sign in, with the two readings of the clock.
pub record Attempt : Type 0 where
  pub password : String
  pub now : ℕ
  pub later : ℕ

abbrev pub count : Account → ℕ
count a = or_default a.failed_login_count 0

abbrev pub counted : Counters → Account → Account
counted c a = record a {
  failed_login_count = some c.failed_login_count;
  locked_until = or_default c.locked_until a.locked_until;
}

abbrev pub written : Result Thrown (Unit {0}) → Counters → Account → Account
written (ok u) c a = counted c a
written (err e) c a = a

-- The replies to passwords that were compared and found wrong.
abbrev pub guesses : List (Result Thrown Reply) → ℕ
guesses [] = 0
guesses (ok invalid_credentials ∷ rs) = suc (guesses rs)
guesses (r ∷ rs) = guesses rs

module _ {S : Type 0} (db : Backend S) where
  unfoldable pub login_all : String → List Attempt → S → List (Result Thrown Reply) × S
  login_all email [] s = ([], s)
  login_all email (x ∷ xs) s =
      let (r, t) = login db x.now x.later email x.password s in
      let (rs, u) = login_all email xs t in (r ∷ rs, u)

  pub record Answers (rows : S → String → Option Account) : Type 0 where
    pub reads : (email : String) (s : S) → db.find_by_email email s ≡ (ok (rows s email), s)
    pub updates :
        (email : String) (a : Account) (c : Counters) (s : S)
        → rows s email ≡ some a
        → rows (db.update a.id c s).1 email ≡ some (written (db.update a.id c s).0 c a)

  -- A password that is compared with the hash and does not match.
  abbrev pub IsWrong : String → Attempt → Type 0
  IsWrong h x = (s : S) → db.compare x.password h s ≡ (ok false, s)

  module _ (rows : S → String → Option Account) where
    pub login_of :
        Answers rows
        → (email : String) (a : Account) (x : Attempt) (s : S) → rows s email ≡ some a
        → a.is_active ≡ true
        → login db x.now x.later email x.password s
          ≡ unlocked db x.later x.password a (lock_at x.now a.locked_until) s
    unfolding login login_found
    login_of laws email a x s found active = rw (laws.reads email s, found, active) refl

    -- While an account is locked, signing in answers so, whatever the password is, compares nothing
    -- and leaves the database as it is.
    pub login_locked :
        Answers rows
        → (email : String) (a : Account) (x : Attempt) (s : S) (t : ℕ) → rows s email ≡ some a
        → a.is_active ≡ true
        → a.locked_until ≡ some t
        → x.now < t
        → login db x.now x.later email x.password s ≡ (ok (account_locked t), s)
    unfolding unlocked lock_at
    login_locked laws email a x s t found active lock before =
        login_of laws email a x s found active ∙ rw (lock, lt→ltb x.now t before) refl

    pub wrong_password :
        Answers rows
        → (email : String) (a : Account) (x : Attempt) (s : S) → rows s email ≡ some a
        → a.is_active ≡ true
        → lock_at x.now a.locked_until ≡ none
        → IsWrong a.password_hash x
        → login db x.now x.later email x.password s ≡ compared db x.later a false s
    unfolding unlocked
    wrong_password laws email a x s found active open_ wrong =
        login_of laws email a x s found active ∙ rw (open_, wrong s) refl
