-- ===== src/Accounts/Sessions.antt =====
-- src/services/data_service.js, lines 196 to 371: sign-in sessions.
use virgo_fleet.Base.{
  ℕ, ◌+◌, ◌*◌, Bool, not, ◌&&◌, [], ◌∷◌, ◌++◌, Option, none, some, ◌==◌, ltb, if◌then◌else◌, first,
  keep, map, any,
}
use virgo_fleet.Accounts.State.{
  MfaState, setup_required, challenge_required, User, Session, Store, Crypto, get_user_by_email,
  save_user, emit_sessions_updated, emit_sessions_revoked, destroy_sessions,
}

pub data Fault : Type 0 where
  invalid_credentials session_not_found user_not_found no_setup_in_progress code_not_valid : Fault
  current_password_required password_too_short current_password_incorrect : Fault

pub data Result {ℓ} (A : Type ℓ) : Type ℓ where
  throws : Fault → Result A
  returns : A → Result A

abbrev pub session_ttl_ms : ℕ
session_ttl_ms = 1000 * 60 * 60 * 24 * 30

abbrev pub new_session : (now id token user_id : ℕ) → MfaState → Session
new_session now id token user_id mfa_state = record {
  id = id;
  token = token;
  user_id = user_id;
  expires_at = now + session_ttl_ms;
  mfa_state = mfa_state;
}

abbrev pub with_session : Session → Store → Store
with_session s st = record st { sessions = st.sessions ++ s ∷ [] }

-- `{ userId, expiresAt: { [Op.lt]: new Date() } }`
abbrev pub is_stale : (now user_id : ℕ) → Session → Bool
is_stale now user_id s = (s.user_id == user_id) && ltb s.expires_at now

-- `createSession`. The token and the row's id are the random source's and the database's.
unfoldable pub create_session : (now id token user_id : ℕ) → MfaState → Store → Store
create_session now id token user_id mfa_state st = emit_sessions_updated user_id (
    with_session (new_session now id token user_id mfa_state)
      (destroy_sessions (is_stale now user_id) st))

-- `getSessionByToken`, the session of a token that is not past its time.
unfoldable pub get_session_by_token : (now token : ℕ) → Store → Option Session
get_session_by_token now token st =
    if token == 0 then none else first (λ s. (s.token == token) && ltb now s.expires_at) st.sessions

abbrev pub with_mfa_state : ℕ → MfaState → Session → Session
with_mfa_state token mfa_state s =
    if s.token == token then record s { mfa_state = mfa_state } else s

abbrev pub owner_of : Option Session → ℕ
owner_of none = 0
owner_of (some s) = s.user_id

unfoldable pub set_session_mfa_state : ℕ → MfaState → Store → Store
set_session_mfa_state token mfa_state st =
    emit_sessions_updated (owner_of (first (λ s. s.token == token) st.sessions))
      (record st { sessions = map (with_mfa_state token mfa_state) st.sessions })

-- `session.destroy()` of a row.
abbrev pub destroy_row : Session → Store → Store
destroy_row row st = record st { sessions = keep (λ s. not (s.id == row.id)) st.sessions }

unfoldable pub revoke_session : (user_id id : ℕ) → Store → Result Store
revoke_session user_id id st =
    elim (first (λ s. (s.id == id) && (s.user_id == user_id)) st.sessions) [
      | none ↦ throws session_not_found
      | some s ↦
          returns
            (emit_sessions_updated user_id (emit_sessions_revoked (s.id ∷ []) (destroy_row s st)))
    ]

unfoldable pub revoke_other_sessions : (user_id current_token : ℕ) → Store → Store
revoke_other_sessions user_id current_token st =
    let others = λ (s : Session). (s.user_id == user_id) && not (s.token == current_token) in
    if any others st.sessions
    then emit_sessions_updated user_id (destroy_sessions others st)
    else st

unfoldable pub delete_session : (token : ℕ) → Store → Store
delete_session token st = elim (first (λ s. s.token == token) st.sessions) [
  | none ↦ st
  | some s ↦ emit_sessions_updated s.user_id (emit_sessions_revoked (s.id ∷ []) (destroy_row s st))
]

module _ (crypto : Crypto) where
  unfoldable pub verify_credentials : (email password : ℕ) → Store → Option User
  verify_credentials email password st = elim (get_user_by_email email st) [
    | none ↦ none
    | some u ↦
        if u.is_disabled
        then none
        else if crypto.compare_password password u.password_hash
        then some u
        else none
  ]

  unfoldable pub change_password : (email password : ℕ) → Store → Result Store
  change_password email password st = elim (get_user_by_email email st) [
    | none ↦ throws user_not_found
    | some u ↦ returns (
        emit_sessions_updated u.id (
          destroy_sessions (λ s. s.user_id == u.id)
            (save_user (record u { password_hash = crypto.hash_password password }) st)))
  ]

  abbrev pub first_state : User → MfaState
  first_state u = if u.totp_enabled then challenge_required else setup_required

  -- `login`: the store, and the state that the session starts in.
  unfoldable pub login : (now id token email password : ℕ) → Store → Result (Store × MfaState)
  login now id token email password st = elim (get_user_by_email email st) [
    | none ↦ throws invalid_credentials
    | some u ↦
        if u.is_disabled
        then throws invalid_credentials
        else if not (crypto.compare_password password u.password_hash)
        then throws invalid_credentials
        else returns (create_session now id token u.id (first_state u) st, first_state u)
  ]
