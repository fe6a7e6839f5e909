-- ===== src/Login.antt =====
-- api/controllers/authController.js: accounts, passwords and the lock-out.
-- The database client, bcrypt and the signing of tokens are parameters; `S` is the state behind them.
-- A handler returns what it answers, and throws what it passes to `next`.
pub mod Guesses
pub mod Lockout
pub mod OpenDoor
pub mod Session
mod Examples
use campusops.Common.{
  ℕ, suc, ◌+◌, ◌*◌, String, Bool, true, false, not, Option, none, some, ltb, leb, or_default,
  if◌then◌else◌,
}
use campusops.Common.Exec.{Exec, Result, pure, ◌>>=◌, ◌>>◌}
use campusops.Common.Text.{Text}
use campusops.Errors.{Thrown}
use campusops.User.{UserRole, student}

-- The columns that `login` selects.
pub record Account : Type 0 where
  pub id : String
  pub name : String
  pub email : String
  pub role : UserRole
  pub department_id : Option String
  pub password_hash : String
  pub is_active : Bool
  pub failed_login_count : Option ℕ
  pub locked_until : Option ℕ

-- What a token carries, and what is answered beside it.
pub record Claims : Type 0 where
  pub id : String
  pub name : String
  pub email : String
  pub role : UserRole
  pub department_id : Option String

-- The data of an update; a lock that is `none` is left out of it.
pub record Counters : Type 0 where
  pub failed_login_count : ℕ
  pub locked_until : Option (Option ℕ)

-- The fields that depend on the role; `year` is the number that the body's value converts to.
pub record RoleFields : Type 0 where
  pub roll_no : Option String
  pub year : Option ℕ
  pub batch : Option String
  pub employee_id : Option String
  pub designation : Option String

pub record Registration : Type 0 where
  pub name : String
  pub email : String
  pub password : String
  pub role : UserRole
  pub department_id : Option String
  pub fields : RoleFields

pub record NewAccount : Type 0 where
  pub name : String
  pub email : String
  pub password_hash : String
  pub role : UserRole
  pub department_id : Option String
  pub is_active : Bool
  pub fields : RoleFields

pub data Reply : Type 0 where
  signed_in registered : Text → Claims → Reply
  invalid_credentials email_taken : Reply
  account_locked : ℕ → Reply

-- `res.status(…)`
unfoldable pub status : Reply → ℕ
status (signed_in t c) = 200
status (registered t c) = 201
status invalid_credentials = 401
status email_taken = 409
status (account_locked until) = 423

pub record Backend (S : Type 0) : Type 0 where
  pub find_by_email : String → Exec S Thrown (Option Account)
  pub update : String → Counters → Exec S Thrown (Unit {0})
  pub create : NewAccount → Exec S Thrown Claims
  pub hash : String → Exec S Thrown String
  pub compare : String → String → Exec S Thrown Bool
  pub sign : Claims → Result Thrown Text

abbrev pub claims_of : Account → Claims
claims_of a = record {
  id = a.id;
  name = a.name;
  email = a.email;
  role = a.role;
  department_id = a.department_id;
}

-- `user.lockedUntil && user.lockedUntil > new Date()`
unfoldable pub lock_at : ℕ → Option ℕ → Option ℕ
lock_at now none = none
lock_at now (some t) = if ltb now t then some t else none

abbrev pub lockout_ms : ℕ
lockout_ms = 15 * 60 * 1000

-- The update after a wrong password.
unfoldable pub after_failure : ℕ → Account → Counters
after_failure now a =
    let new_count = or_default a.failed_login_count 0 + 1 in
    record {
      failed_login_count = new_count;
      locked_until = if leb 5 new_count then some (some (now + lockout_ms)) else none;
    }

abbrev pub reset : Counters
reset = record { failed_login_count = 0; locked_until = some none }

-- The role fields that `register` keeps.
unfoldable pub role_fields : UserRole → RoleFields → RoleFields
role_fields student f = record f { employee_id = none; designation = none }
role_fields role f = record f { roll_no = none; year = none; batch = none }

module _ {S : Type 0} (db : Backend S) where
  -- `#signToken(user)`
  abbrev pub sign_token : (Text → Claims → Reply) → Claims → Exec S Thrown Reply
  sign_token answer c = (λ s. (db.sign c, s)) >>= λ token. pure (answer token c)

  -- What follows `bcrypt.compare`.
  unfoldable pub compared : ℕ → Account → Bool → Exec S Thrown Reply
  compared now a false = db.update a.id (after_failure now a) >> pure invalid_credentials
  compared now a true = db.update a.id reset >> sign_token signed_in (claims_of a)

  unfoldable pub unlocked : ℕ → String → Account → Option ℕ → Exec S Thrown Reply
  unlocked later password a (some t) = pure (account_locked t)
  unlocked later password a none = db.compare password a.password_hash >>= compared later a

  unfoldable pub login_found : (now later : ℕ) → String → Option Account → Exec S Thrown Reply
  login_found now later password none = pure invalid_credentials
  login_found now later password (some a) =
      if not a.is_active
      then pure invalid_credentials
      else unlocked later password a (lock_at now a.locked_until)

  -- `login`: the clock is read at the check of the lock and again when the password was wrong.
  unfoldable pub login : (now later : ℕ) → (email password : String) → Exec S Thrown Reply
  login now later email password = db.find_by_email email >>= login_found now later password

  unfoldable pub register_new : Registration → Option Account → Exec S Thrown Reply
  register_new r (some a) = pure email_taken
  register_new r none =
      db.hash r.password
      >>= (λ h. db.create record {
        name = r.name;
        email = r.email;
        password_hash = h;
        role = r.role;
        department_id = r.department_id;
        is_active = true;
        fields = role_fields r.role r.fields;
      })
      >>= sign_token registered

  -- `register`
  unfoldable pub register : Registration → Exec S Thrown Reply
  register r = db.find_by_email r.email >>= register_new r
