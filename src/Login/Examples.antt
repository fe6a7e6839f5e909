-- ===== src/Login/Examples.antt =====
-- The theorems on sign-in at concrete inputs: one account, whose password is "right".
use campusops.Common.{
  ℕ, ◌≡◌, refl, ap, sym, ◌≤◌, String, true, Option, none, some, List, [], ◌∷◌, ◌++◌, str_eq, arith,
}
use campusops.Common.Exec.{Result, ok}
use campusops.Common.Text.{Text, codes}
use campusops.User.{admin}
use campusops.Middleware.Auth.{Payload, Request, proceed, guard_route}
use campusops.Login.{
  Account, Backend, NewAccount, Claims, Registration, registered, register, login, login_found,
  unlocked, compared, lock_at, claims_of, reset,
}
use campusops.Login.Lockout.{Attempt, Answers, counted, guesses, login_all}
use campusops.Login.Guesses.{guess_bound}
use campusops.Login.OpenDoor.{KeepsRole, register_admits}
use campusops.Login.Session.{session, SignedIn, login_admits}

abbrev mira : Account
mira = record {
  id = "U7";
  name = "Mira";
  email = "mira@college.edu";
  role = admin;
  department_id = none;
  password_hash = "right";
  is_active = true;
  failed_login_count = some 3;
  locked_until = none;
}

-- The state is the one row of the table.
abbrev row_of : Account → String → Option Account
row_of a email = some a

abbrev one_account : Backend Account
one_account = record {
  find_by_email = λ email s. (ok (some s), s);
  update = λ id c s. (ok tt, counted c s);
  create = λ n s. (ok (claims_of s), s);
  hash = λ p s. (ok p, s);
  compare = λ p h s. (ok (str_eq p h), s);
  sign = λ c. ok (codes "token");
}

one_account-Answers : Answers one_account row_of
one_account-Answers = record {
  reads = λ email s. refl;
  updates = λ email a c s h. let same : s ≡ a = cc in ap (λ z. some (counted c z)) same;
}

abbrev guess : ℕ → Attempt
guess at = record { password = "wrong"; now = at; later = at }

abbrev burst : List Attempt
burst = guess 10 ∷ guess 20 ∷ guess 30 ∷ []

guess_bound_example : guesses (login_all one_account "mira" burst mira).0 ≤ 2
guess_bound_example =
    guess_bound one_account row_of one_account-Answers "mira" burst mira mira 10 40 1 refl refl
      (
        (λ s. refl, omega arith, omega arith),
        ((λ s. refl, omega arith, omega arith), ((λ s. refl, omega arith, omega arith), tt)),
      )
      (omega arith, (omega arith, (omega arith, tt))) (omega arith)

abbrev verify : Text → Result String Payload
verify token = ok (session (claims_of mira))

abbrev to_alerts : Request
to_alerts = record { auth_header = some (codes "Bearer " ++ codes "token"); user = none }

login_admits_example :
    (a : Account) × (some mira ≡ some a)
    × SignedIn one_account 30 "right" a (codes "token") (claims_of mira) mira (counted reset mira)
    × (guard_route verify (admin ∷ []) to_alerts
        ≡ proceed (record to_alerts { user = some (session (claims_of a)) }))
unfolding login login_found unlocked compared lock_at
login_admits_example =
    login_admits one_account row_of one_account-Answers verify 30 30 "mira" "right" (codes "token")
      (claims_of mira) mira (counted reset mira) (λ h. (refl, refl)) (admin ∷ []) to_alerts refl
      refl refl

-- The state is the last account that was made.
abbrev claims_for : NewAccount → Claims
claims_for n = record {
  id = "U9";
  name = n.name;
  email = n.email;
  role = n.role;
  department_id = n.department_id;
}

abbrev open_house : Backend (Option Claims)
open_house = record {
  find_by_email = λ email s. (ok none, s);
  update = λ id c s. (ok tt, s);
  create = λ n s. (ok (claims_for n), some (claims_for n));
  hash = λ p s. (ok p, s);
  compare = λ p h s. (ok (str_eq p h), s);
  sign = λ c. ok (codes "token");
}

open_house-KeepsRole : KeepsRole open_house
open_house-KeepsRole n c s t h = let same : claims_for n ≡ c = cc in ap (λ x. x.role) (sym same)

abbrev stranger : Registration
stranger = record {
  name = "Eve";
  email = "eve@example.org";
  password = "pw";
  role = admin;
  department_id = none;
  fields = record {
    roll_no = none;
    year = none;
    batch = none;
    employee_id = none;
    designation = none;
  };
}

abbrev eve : Claims
eve = record {
  id = "U9";
  name = "Eve";
  email = "eve@example.org";
  role = admin;
  department_id = none;
}

abbrev verify_eve : Text → Result String Payload
verify_eve token = ok (session eve)

register_admits_example :
    (register open_house stranger none ≡ (ok (registered (codes "token") eve), some eve))
    × (guard_route verify_eve (admin ∷ []) to_alerts
        ≡ proceed (record to_alerts { user = some (session eve) }))
register_admits_example =
    register_admits open_house verify_eve stranger "pw" eve (codes "token") none none none
      (some eve) (admin ∷ []) to_alerts open_house-KeepsRole refl refl refl refl refl refl refl refl
