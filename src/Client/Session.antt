-- ===== src/Client/Session.antt =====
-- client/src/context/AuthContext.jsx and client/src/api/client.js: the session in memory, the copy in
-- localStorage, and the token that a request carries. `U` is the users that JSON makes of a text.
pub mod Restored
use campusops.Common.{
  Bool, true, false, not, Option, none, some, List, [], ◌∷◌, ◌++◌, if◌then◌else◌, is_some,
}
use campusops.Common.Text.{Text, codes, is_empty}

-- `localStorage`, under the two keys of the client.
pub record Storage : Type 0 where
  pub token : Option Text
  pub user : Option Text

pub record Session (U : Type 0) : Type 0 where
  pub user : Option U
  pub token : Option Text
  pub is_loading : Bool

-- The client: what is in memory and what is stored.
pub record Browser (U : Type 0) : Type 0 where
  pub session : Session U
  pub storage : Storage

-- `JSON`: `parse` throws where it is `none`, and gives null where it is `some none`.
pub record UserJson (U : Type 0) : Type 0 where
  pub stringify : U → Text
  pub parse : Text → Option (Option U)

abbrev pub empty_storage : Storage
empty_storage = record { token = none; user = none }

abbrev pub signed_out : {U : Type 0} → Session U
signed_out = record { user = none; token = none; is_loading = false }

-- `Boolean(token)`
unfoldable pub is_given : Option Text → Bool
is_given none = false
is_given (some t) = not (is_empty t)

-- `isAuthenticated`
abbrev pub is_authenticated : {U : Type 0} → Session U → Bool
is_authenticated s = is_given s.token

module _ {U : Type 0} (json : UserJson U) where
  -- The body of the `try`: the token is set before the user is parsed.
  parsed : Text → Storage → Option (Option U) → Browser U
  parsed token st none = record {
    session = record { user = none; token = some token; is_loading = false };
    storage = empty_storage;
  }
  parsed token st (some u) = record {
    session = record { user = u; token = some token; is_loading = false };
    storage = st;
  }

  with_both : Storage → Option Text → Option Text → Browser U
  unfolding parsed
  with_both st (some token) (some user) =
      if is_empty token
      then record { session = signed_out; storage = st }
      else if is_empty user
      then record { session = signed_out; storage = st }
      else parsed token st (json.parse user)
  with_both st (some token) none = record { session = signed_out; storage = st }
  with_both st none user = record { session = signed_out; storage = st }

  -- The effect that runs when the provider is mounted, on each load of the page.
  unfoldable pub restore : Storage → Browser U
  unfolding with_both
  restore st = with_both st st.token st.user

  -- `login` and `registerUser`, once the server has answered with a token and a user.
  unfoldable pub signed_in : Text → U → Browser U → Browser U
  signed_in token u b = record {
    session = record b.session { user = some u; token = some token };
    storage = record { token = some token; user = some (json.stringify u) };
  }

  -- `logout`
  unfoldable pub logout : Browser U → Browser U
  logout b = record {
    session = record b.session { user = none; token = none };
    storage = empty_storage;
  }

  -- The interceptor of responses on a first 401: the storage is cleared, and the page is loaded anew.
  unfoldable pub rejected : Browser U → Browser U
  unfolding restore
  rejected b = restore empty_storage

  pub data SessionEvent : Type 0 where
    answered : Text → U → SessionEvent
    left_by_user reloaded unauthorized : SessionEvent

  unfoldable pub step : SessionEvent → Browser U → Browser U
  unfolding restore signed_in logout rejected
  step (answered token u) b = signed_in token u b
  step left_by_user b = logout b
  step reloaded b = restore b.storage
  step unauthorized b = rejected b

  unfoldable pub run : List SessionEvent → Browser U → Browser U
  unfolding step
  run [] b = b
  run (e ∷ es) b = run es (step e b)

bearer : Option Text → Option Text
bearer none = none
bearer (some t) = if is_empty t then none else some (codes "Bearer " ++ t)

-- The interceptor of requests: the header that a request carries.
unfoldable pub auth_header : Storage → Option Text
unfolding bearer
auth_header st = bearer st.token
