-- ===== src/Accounts/Requests.antt =====
-- src/controllers/auth.js: the requests, each with the session token of its cookie.
use virgo_fleet.Base.{
  ℕ, Bool, true, false, ◌||◌, List, Option, none, some, ◌==◌, ltb, if◌then◌else◌,
}
use virgo_fleet.Accounts.State.{
  MfaState, setup_required, challenge_required, satisfied, User, Session, Store, Crypto, find_user,
}
use virgo_fleet.Accounts.Sessions.{
  Fault, Result, throws, returns, current_password_required, password_too_short,
  current_password_incorrect, get_session_by_token, set_session_mfa_state, delete_session,
  verify_credentials, change_password, login, revoke_session, revoke_other_sessions,
}
use virgo_fleet.Accounts.Totp.{
  begin_totp_setup, confirm_totp_setup, verify_totp_challenge, consume_recovery_code,
}

pub data Answer : Type 0 where
  succeeded : Answer
  gated : MfaState → Answer
  not_allowed code_refused not_authenticated : Answer
  failed : Fault → Answer

abbrev pub Response : Type 0
Response = Store × Answer

-- `try { … } catch (error) { res.status(…).json(…) }`
unfoldable pub attempt {ℓ} : {A : Type ℓ} → Result A → Store → (A → Response) → Response
attempt (throws e) st k = (st, failed e)
attempt (returns a) st k = k a

abbrev pub both_of : Option Session → Option User → Option (Session × User)
both_of (some s) (some u) = some (s, u)
both_of _ _ = none

abbrev pub user_of : Option Session → Store → Option User
user_of none st = none
user_of (some s) st = find_user s.user_id st

-- `sessionFromRequest`: the live session of the cookie and its user.
unfoldable pub session_from_request : (now token : ℕ) → Store → Option (Session × User)
session_from_request now token st =
    let session = get_session_by_token now token st in both_of session (user_of session st)

abbrev pub is_state : MfaState → MfaState → Bool
is_state setup_required setup_required = true
is_state challenge_required challenge_required = true
is_state satisfied satisfied = true
is_state _ _ = false

-- The live session of the cookie, where it is in the state.
unfoldable pub gate : (now token : ℕ) → MfaState → Store → Option (Session × User)
gate now token wanted st = elim (session_from_request now token st) [
  | none ↦ none
  | some (s, u) ↦ if is_state wanted s.mfa_state then some (s, u) else none
]

abbrev pub min_password_length : ℕ
min_password_length = 8

module _ (crypto : Crypto) where
  unfoldable pub log_in : (now id token email password : ℕ) → Store → Response
  log_in now id token email password st =
      attempt (login crypto now id token email password st) st
        λ (st', mfa_state). (st', gated mfa_state)

  unfoldable pub log_out : (token : ℕ) → Store → Response
  log_out token st = (if token == 0 then st else delete_session token st, succeeded)

  unfoldable pub mfa_setup : (now token secret : ℕ) → Store → Response
  mfa_setup now token secret st = elim (gate now token setup_required st) [
    | none ↦ (st, not_allowed)
    | some (s, u) ↦ attempt (begin_totp_setup crypto u.id secret st) st λ st'. (st', succeeded)
  ]

  unfoldable pub mfa_setup_verify :
      (now token code : ℕ) → (recovery_codes : List ℕ) → Store → Response
  mfa_setup_verify now token code codes st = elim (gate now token setup_required st) [
    | none ↦ (st, not_allowed)
    | some (s, u) ↦
        attempt (confirm_totp_setup crypto now u.id code codes st) st
          λ st'. (set_session_mfa_state token satisfied st', succeeded)
  ]

  -- Whether the code or the recovery code, where one is given, is right, and the store after it.
  unfoldable pub pass : (now user_id code recovery_code : ℕ) → Store → Bool × Store
  pass now user_id code recovery_code st =
      if recovery_code == 0
      then (verify_totp_challenge crypto now user_id code st, st)
      else consume_recovery_code crypto user_id recovery_code st

  -- A code that passed lifts the session.
  unfoldable pub conclude : (token : ℕ) → Bool × Store → Response
  conclude token (true, st) = (set_session_mfa_state token satisfied st, succeeded)
  conclude token (false, st) = (st, code_refused)

  unfoldable pub mfa_verify : (now token code recovery_code : ℕ) → Store → Response
  mfa_verify now token code recovery_code st = elim (gate now token challenge_required st) [
    | none ↦ (st, not_allowed)
    | some (s, u) ↦ conclude token (pass now u.id code recovery_code st)
  ]

  -- `length` is the new password's.
  unfoldable pub change_own_password :
      (now token current_password password length : ℕ) → Store → Response
  change_own_password now token current_password password length st =
      elim (gate now token satisfied st) [
        | none ↦ (st, not_authenticated)
        | some (s, u) ↦
            if current_password == 0
            then (st, failed current_password_required)
            else if (password == 0) || ltb length min_password_length
            then (st, failed password_too_short)
            else elim (verify_credentials crypto u.email current_password st) [
              | none ↦ (st, failed current_password_incorrect)
              | some v ↦
                  attempt (change_password crypto u.email password st) st λ st'. (st', succeeded)
            ]
      ]

  -- The requests of src/controllers/auth.js, and the revocations of src/modules/user/sessions.js.
  pub data Event : Type 0 where
    logged_in : (now id token email password : ℕ) → Event
    logged_out : (token : ℕ) → Event
    setup_begun : (now token secret : ℕ) → Event
    setup_verified : (now token code : ℕ) → (recovery_codes : List ℕ) → Event
    verified : (now token code recovery_code : ℕ) → Event
    password_changed : (now token current_password password length : ℕ) → Event
    session_revoked : (user_id session_id : ℕ) → Event
    others_revoked : (user_id current_token : ℕ) → Event

  unfoldable pub step : Event → Store → Response
  step (logged_in now id token email password) st = log_in now id token email password st
  step (logged_out token) st = log_out token st
  step (setup_begun now token secret) st = mfa_setup now token secret st
  step (setup_verified now token code codes) st = mfa_setup_verify now token code codes st
  step (verified now token code recovery_code) st = mfa_verify now token code recovery_code st
  step (password_changed now token current password length) st =
      change_own_password now token current password length st
  step (session_revoked user_id session_id) st =
      attempt (revoke_session user_id session_id st) st λ st'. (st', succeeded)
  step (others_revoked user_id current_token) st =
      (revoke_other_sessions user_id current_token st, succeeded)
