-- ===== src/Accounts/Accounting.antt =====
-- src/services/data_service.js: a session row that goes is reported, so that its live sockets are
-- disconnected.
use virgo_fleet.Base.{
  ℕ, ◌≡◌, refl, ap, Bool, true, false, not, ◌&&◌, ◌||◌, List, [], ◌∷◌, arith, ◌==◌, ltb, if_keeps,
  Option_keeps, any, keep, map, has, first,
}
use virgo_fleet.Accounts.State.{
  MfaState, setup_required, challenge_required, satisfied, Session, Store, Crypto, find_user,
  get_user_by_email, save_user, emit_sessions_updated, emit_sessions_revoked, destroy_sessions,
  ids_of,
}
use virgo_fleet.Accounts.Sessions.{
  Result, create_session, set_session_mfa_state, with_mfa_state, revoke_session,
  revoke_other_sessions, delete_session, change_password, first_state, login, verify_credentials,
  owner_of, is_stale, new_session, with_session, destroy_row,
}
use virgo_fleet.Accounts.Totp.{begin_totp_setup, confirm_totp_setup, consume_recovery_code}
use virgo_fleet.Accounts.Requests.{
  Response, attempt, succeeded, gated, gate, log_in, log_out, mfa_setup, mfa_setup_verify, pass,
  mfa_verify, conclude, min_password_length, change_own_password, Event, step, logged_in,
  logged_out, setup_begun, setup_verified, verified, password_changed, session_revoked,
  others_revoked,
}
use virgo_fleet.Accounts.Rows.{
  any-append, updated_sessions, revoked_sessions, reported, updated_reported, revoked_reported,
}

abbrev pub has_row : ℕ → Store → Bool
has_row id st = any (λ s. s.id == id) st.sessions

-- The session's row is in the table, or it was reported as revoked.
abbrev pub IsAccounted : ℕ → Store → Type 0
IsAccounted id st = (has_row id st || reported id st.out) ≡ true

row_from : (id : ℕ) (l m : List Session) → l ≡ m → any (λ s. s.id == id) l ≡ any (λ s. s.id == id) m
row_from id l m e = ap (any (λ s. s.id == id)) e

updated_Accounted :
    (id u : ℕ) (st : Store) → IsAccounted id st → IsAccounted id (emit_sessions_updated u st)
updated_Accounted id u st h =
    ground (arith, row_from id _ _ (updated_sessions u st), updated_reported id u st)

parted :
    (id : ℕ) (test : Session → Bool) (l : List Session)
    → any (λ s. s.id == id) l ≡ true
    → (any (λ s. s.id == id) (keep (λ s. not (test s)) l) || has (ids_of (keep test l)) id) ≡ true
parted id test [] h = h
parted id test (s ∷ l) h = ground (arith, parted id test l)

destroy_Accounted :
    (id : ℕ) (test : Session → Bool) (st : Store)
    → IsAccounted id st
    → IsAccounted id (destroy_sessions test st)
unfolding destroy_sessions
destroy_Accounted id test st h = ground (
  arith,
  parted id test st.sessions,
  row_from id _ _ (revoked_sessions (ids_of (keep test st.sessions)) left),
  revoked_reported id (ids_of (keep test st.sessions)) left,
)
  where
    left : Store
    left = record st { sessions = keep (λ s. not (test s)) st.sessions }

parted_row :
    (id k : ℕ) (l : List Session)
    → any (λ s. s.id == id) l ≡ true
    → (any (λ s. s.id == id) (keep (λ s. not (s.id == k)) l) || (k == id)) ≡ true
parted_row id k [] h = ground arith
parted_row id k (s ∷ l) h = ground (arith, parted_row id k l)

row_Accounted :
    (id u : ℕ) (s : Session) (st : Store)
    → IsAccounted id st
    → IsAccounted id
        (emit_sessions_updated u (emit_sessions_revoked (s.id ∷ []) (destroy_row s st)))
row_Accounted id u s st h =
    updated_Accounted id u (emit_sessions_revoked (s.id ∷ []) (destroy_row s st)) (
      ground (
        arith,
        parted_row id s.id st.sessions,
        row_from id _ _ (revoked_sessions (s.id ∷ []) (destroy_row s st)),
        revoked_reported id (s.id ∷ []) (destroy_row s st),
      ))

create_Accounted :
    (id now new token u : ℕ) (m : MfaState) (st : Store)
    → IsAccounted id st
    → IsAccounted id (create_session now new token u m st)
unfolding create_session
create_Accounted id now new token u m st h =
    updated_Accounted id u (with_session (new_session now new token u m) cleared) (
      ground (
        arith,
        destroy_Accounted id (is_stale now u) st h,
        any-append (λ s. s.id == id) cleared.sessions (new_session now new token u m ∷ []),
      ))
  where
    cleared : Store
    cleared = destroy_sessions (is_stale now u) st

same_ids :
    (id token : ℕ) (m : MfaState) (l : List Session)
    → any (λ s. s.id == id) (map (with_mfa_state token m) l) ≡ any (λ s. s.id == id) l
same_ids id token m [] = refl
same_ids id token m (s ∷ l) = ground (arith, same_ids id token m l)

set_Accounted :
    (id token : ℕ) (m : MfaState) (st : Store)
    → IsAccounted id st
    → IsAccounted id (set_session_mfa_state token m st)
unfolding set_session_mfa_state
set_Accounted id token m st h =
    updated_Accounted id (owner_of (first (λ s. s.token == token) st.sessions))
      (record st { sessions = map (with_mfa_state token m) st.sessions })
      (ground (arith, same_ids id token m st.sessions))

module _ (crypto : Crypto) (id : ℕ) (st : Store) (h : IsAccounted id st) where
  abbrev Accounted : Response → Type 0
  Accounted o = IsAccounted id o.0

  abbrev AccountedStore : Result Store → Type 0
  AccountedStore r = Accounted (attempt r st λ st'. (st', succeeded))

  abbrev AccountedLogin : Result (Store × MfaState) → Type 0
  AccountedLogin r = Accounted (attempt r st λ (st', mfa_state). (st', gated mfa_state))

  abbrev AccountedSetup : ℕ → Result Store → Type 0
  AccountedSetup token r =
      Accounted (attempt r st λ st'. (set_session_mfa_state token satisfied st', succeeded))

  log_in-Accounted :
      (now new token email password : ℕ) → Accounted (log_in crypto now new token email password st)
  unfolding log_in login attempt
  log_in-Accounted now new token email password =
      Option_keeps AccountedLogin (get_user_by_email email st) _ _ (λ _. h)
        λ u _.
          if_keeps AccountedLogin u.is_disabled _ _ (λ _. h)
            λ _.
              if_keeps AccountedLogin (not (crypto.compare_password password u.password_hash)) _ _
                (λ _. h) λ _. create_Accounted id now new token u.id (first_state crypto u) st h

  log_out-Accounted : (token : ℕ) → Accounted (log_out crypto token st)
  unfolding log_out delete_session
  log_out-Accounted token =
      if_keeps (IsAccounted id) (token == 0) _ _ (λ _. h)
        λ _.
          Option_keeps (IsAccounted id) (first (λ s. s.token == token) st.sessions) _ _ (λ _. h)
            λ s _. row_Accounted id s.user_id s st h

  mfa_setup-Accounted : (now token secret : ℕ) → Accounted (mfa_setup crypto now token secret st)
  unfolding mfa_setup begin_totp_setup attempt
  mfa_setup-Accounted now token secret =
      Option_keeps Accounted (gate now token setup_required st) _ _ (λ _. h)
        λ (s, u) _. Option_keeps AccountedStore (find_user u.id st) _ _ (λ _. h) (λ v _. h)

  mfa_setup_verify-Accounted :
      (now token code : ℕ) (codes : List ℕ)
      → Accounted (mfa_setup_verify crypto now token code codes st)
  unfolding mfa_setup_verify confirm_totp_setup attempt
  mfa_setup_verify-Accounted now token code codes =
      Option_keeps Accounted (gate now token setup_required st) _ _ (λ _. h)
        λ (s, u) _.
          Option_keeps (AccountedSetup token) (find_user u.id st) _ _ (λ _. h)
            λ v _.
              if_keeps (AccountedSetup token) (v.totp_pending_secret == 0) _ _ (λ _. h)
                λ _.
                  if_keeps (AccountedSetup token)
                    (not (crypto.verify_token code (crypto.decrypt v.totp_pending_secret) now)) _ _
                    (λ _. h) λ _. set_Accounted id token satisfied _ h

  conclude-Accounted :
      (token : ℕ) (p : Bool × Store) → IsAccounted id p.1 → Accounted (conclude crypto token p)
  unfolding conclude
  conclude-Accounted token (true, st') k = set_Accounted id token satisfied st' k
  conclude-Accounted token (false, st') k = k

  mfa_verify-Accounted :
      (now token code recovery_code : ℕ)
      → Accounted (mfa_verify crypto now token code recovery_code st)
  unfolding mfa_verify pass consume_recovery_code
  mfa_verify-Accounted now token code recovery_code =
      Option_keeps Accounted (gate now token challenge_required st) _ _ (λ _. h)
        λ (s, u) _. conclude-Accounted token (pass crypto now u.id code recovery_code st) (
          if_keeps (λ (o : Bool × Store). IsAccounted id o.1) (recovery_code == 0) _ _ (λ _. h)
            (λ _. h))

  change_password-Accounted :
      (email password : ℕ)
      → Accounted (attempt (change_password crypto email password st) st λ st'. (st', succeeded))
  unfolding change_password attempt
  change_password-Accounted email password =
      Option_keeps AccountedStore (get_user_by_email email st) _ _ (λ _. h)
        λ u _.
          updated_Accounted id u.id
            (destroy_sessions (λ s. s.user_id == u.id)
              (save_user (record u { password_hash = crypto.hash_password password }) st))
            (destroy_Accounted id (λ s. s.user_id == u.id)
              (save_user (record u { password_hash = crypto.hash_password password }) st) h)

  change_own_password-Accounted :
      (now token current password length : ℕ)
      → Accounted (change_own_password crypto now token current password length st)
  unfolding change_own_password
  change_own_password-Accounted now token current password length =
      Option_keeps Accounted (gate now token satisfied st) _ _ (λ _. h)
        λ (s, u) _.
          if_keeps Accounted (current == 0) _ _ (λ _. h)
            λ _.
              if_keeps Accounted ((password == 0) || ltb length min_password_length) _ _ (λ _. h)
                λ _.
                  Option_keeps Accounted (verify_credentials crypto u.email current st) _ _ (λ _. h)
                    λ v _. change_password-Accounted u.email password

  revoke-Accounted : (u k : ℕ) → AccountedStore (revoke_session u k st)
  unfolding revoke_session attempt
  revoke-Accounted u k =
      Option_keeps AccountedStore (first (λ s. (s.id == k) && (s.user_id == u)) st.sessions) _ _
        (λ _. h) λ s _. row_Accounted id u s st h

  others-Accounted : (u token : ℕ) → IsAccounted id (revoke_other_sessions u token st)
  unfolding revoke_other_sessions
  others-Accounted u token =
      if_keeps (IsAccounted id) (any (λ s. (s.user_id == u) && not (s.token == token)) st.sessions)
        _ _
        (λ _.
          updated_Accounted id u
            (destroy_sessions (λ s. (s.user_id == u) && not (s.token == token)) st)
            (destroy_Accounted id (λ s. (s.user_id == u) && not (s.token == token)) st h))
        (λ _. h)

-- A session's row does not go unreported: after a request or a revocation, a session that had a row or was reported
-- as revoked has a row or was reported as revoked.
pub step-IsAccounted :
    (crypto : Crypto) (event : Event crypto) (id : ℕ) (st : Store)
    → IsAccounted id st
    → IsAccounted id (step crypto event st).0
unfolding step
step-IsAccounted crypto (logged_in now new token email password) id st h =
    log_in-Accounted crypto id st h now new token email password
step-IsAccounted crypto (logged_out token) id st h = log_out-Accounted crypto id st h token
step-IsAccounted crypto (setup_begun now token secret) id st h =
    mfa_setup-Accounted crypto id st h now token secret
step-IsAccounted crypto (setup_verified now token code codes) id st h =
    mfa_setup_verify-Accounted crypto id st h now token code codes
step-IsAccounted crypto (verified now token code recovery_code) id st h =
    mfa_verify-Accounted crypto id st h now token code recovery_code
step-IsAccounted crypto (password_changed now token current password length) id st h =
    change_own_password-Accounted crypto id st h now token current password length
step-IsAccounted crypto (session_revoked u k) id st h = revoke-Accounted crypto id st h u k
step-IsAccounted crypto (others_revoked u token) id st h = others-Accounted crypto id st h u token
