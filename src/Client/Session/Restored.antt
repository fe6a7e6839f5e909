-- ===== src/Client/Session/Restored.antt =====
-- What a reload of the page makes of the session.
use campusops.Common.{
  ◌≡◌, refl, sym, ap, ◌∙◌, true, false, none, some, List, [], ◌∷◌, is_some, All, ◌⊎◌, inl, inr,
}
use campusops.Common.Text.{Text, is_empty}
use campusops.Client.Session.{
  Session, Browser, UserJson, empty_storage, signed_out, is_given, is_authenticated, restore,
  with_both, parsed, signed_in, logout, rejected, SessionEvent, answered, left_by_user, reloaded,
  unauthorized, step, run, auth_header, bearer,
}

module _ {U : Type 0} (json : UserJson U) where
  -- What JSON is relied on for: a user that was written is read back, and no text of one is empty.
  abbrev pub IsFaithful : Type 0
  IsFaithful =
      (u : U)
      → (json.parse (json.stringify u) ≡ some (some u)) × (is_empty (json.stringify u) ≡ false)

  abbrev pub IsOut : Browser U → Type 0
  IsOut b = (b.session ≡ signed_out) × (b.storage ≡ empty_storage)

  pub record IsIn (b : Browser U) : Type 0 where
    pub token : Text
    pub user : U
    pub given : is_empty token ≡ false
    pub session : b.session ≡ record { user = some user; token = some token; is_loading = false }
    pub storage : b.storage ≡ record { token = some token; user = some (json.stringify user) }

  -- Signed in or signed out, in memory as in the storage.
  abbrev pub IsSettled : Browser U → Type 0
  IsSettled b = IsOut b ⊎ IsIn b

  restore_out :
      restore json empty_storage ≡ record { session = signed_out; storage = empty_storage }
  unfolding restore with_both
  restore_out = refl

  restore_in :
      (token : Text) (u : U)
      → IsFaithful
      → is_empty token ≡ false
      → restore json (record { token = some token; user = some (json.stringify u) }) ≡ record {
        session = record { user = some u; token = some token; is_loading = false };
        storage = record { token = some token; user = some (json.stringify u) };
      }
  unfolding restore with_both parsed
  restore_in token u faithful given =
      let (read, written) = faithful u in rw (given, written, read) refl

  restore-settled : (b : Browser U) → IsFaithful → IsSettled b → restore json b.storage ≡ b
  restore-settled b faithful (inl (out, none_kept)) =
      rw none_kept
        (restore_out ∙ ap (λ s. record { session = s; storage = empty_storage }) (sym out))
  restore-settled b faithful (inr i) = rw i.storage (
      restore_in i.token i.user faithful i.given
      ∙ ap
          (λ s. record {
            session = s;
            storage = record { token = some i.token; user = some (json.stringify i.user) };
          })
          (sym i.session))

  -- The server answers with a token that is not empty.
  abbrev pub IsGiven : SessionEvent json → Type 0
  IsGiven (answered token u) = is_empty token ≡ false
  IsGiven _ = Unit

  not_loading : (b : Browser U) → IsSettled b → b.session.is_loading ≡ false
  not_loading b (inl (out, none_kept)) = ap (λ (s : Session U). s.is_loading) out
  not_loading b (inr i) = ap (λ (s : Session U). s.is_loading) i.session

  step-IsSettled :
      (e : SessionEvent json) (b : Browser U)
      → IsFaithful
      → IsGiven e
      → IsSettled b
      → IsSettled (step json e b)
  unfolding step signed_in logout rejected
  step-IsSettled (answered token u) b faithful given h = inr (record {
    token = token;
    user = u;
    given = given;
    session = rw (not_loading b h) refl;
    storage = refl;
  })
  step-IsSettled left_by_user b faithful given h = inl (rw (not_loading b h) refl, refl)
  step-IsSettled reloaded b faithful given h = rw (restore-settled b faithful h) h
  step-IsSettled unauthorized b faithful given h = rw restore_out (inl (refl, refl))

  run-IsSettled :
      (es : List (SessionEvent json)) (b : Browser U)
      → IsFaithful
      → All IsGiven es
      → IsSettled b
      → IsSettled (run json es b)
  unfolding run
  run-IsSettled [] b faithful given h = h
  run-IsSettled (e ∷ es) b faithful (g, gs) h =
      run-IsSettled es (step json e b) faithful gs (step-IsSettled e b faithful g h)

  header_of :
      (b : Browser U)
      → IsSettled b
      → (is_authenticated b.session ≡ is_some b.session.user)
        × (is_some (auth_header b.storage) ≡ is_authenticated b.session)
  unfolding is_given auth_header bearer
  header_of b (inl (out, none_kept)) = rw (out, none_kept) (refl, refl)
  header_of b (inr i) = rw (i.session, i.storage, i.given) (refl, refl)

  -- Whatever the order of sign-ins, sign-outs, reloads and refused requests, starting from a client
  -- with nothing stored: a user is known exactly when the client takes itself for signed in, a
  -- request then carries a token and otherwise none, and a reload of the page changes nothing. Parsing
  -- gives back the user that was written, and no token that the server gives is empty.
  pub run_consistent :
      (es : List (SessionEvent json))
      → IsFaithful
      → All IsGiven es
      → let b = run json es (restore json empty_storage) in
        (is_authenticated b.session ≡ is_some b.session.user)
        × (is_some (auth_header b.storage) ≡ is_authenticated b.session)
        × (restore json b.storage ≡ b)
  run_consistent es faithful given =
      let start : IsSettled (restore json empty_storage) = rw restore_out (inl (refl, refl)) in
      let settled = run-IsSettled es (restore json empty_storage) faithful given start in
      let (known, carried) = header_of (run json es (restore json empty_storage)) settled in
      (known, carried, restore-settled (run json es (restore json empty_storage)) faithful settled)

  -- Where the stored user is no JSON, the client clears the storage and yet takes itself for signed
  -- in, with no user, while its requests carry no token; the next reload signs it out.
  pub restore_corrupt :
      (token user : Text)
      → is_empty token ≡ false
      → is_empty user ≡ false
      → json.parse user ≡ none
      → let b = restore json (record { token = some token; user = some user }) in
        (is_authenticated b.session ≡ true)
        × (b.session.user ≡ none)
        × (auth_header b.storage ≡ none)
        × (is_authenticated (restore json b.storage).session ≡ false)
  unfolding restore with_both parsed is_given auth_header bearer
  restore_corrupt token user given written broken =
      rw (given, written, broken) (rw given refl, refl, refl, refl)
