-- ===== src/Accounts/Gating.antt =====
-- src/controllers/auth.js and src/services/data_service.js: how a session comes to be satisfied.
use virgo_fleet.Base.{
  ℕ, ◌≡◌, refl, sym, ap, ◌∙◌, Bool, true, false, not, ◌&&◌, ◌||◌, List, [], ◌∷◌, arith, ◌==◌, ltb,
  if◌then◌else◌, if_keeps, Option_keeps, any, map, Option, none, some, first, Option-cases, inl,
  inr,
}
use virgo_fleet.Accounts.State.{
  MfaState, setup_required, challenge_required, satisfied, User, Session, Store, Crypto, find_user,
  get_user_by_email, save_user, emit_sessions_updated, emit_sessions_revoked, destroy_sessions,
  RecoveryCode,
}
use virgo_fleet.Accounts.Sessions.{
  Result, create_session, set_session_mfa_state, with_mfa_state, revoke_session,
  revoke_other_sessions, delete_session, change_password, first_state, login, verify_credentials,
  owner_of, is_stale, new_session, with_session, destroy_row,
}
use virgo_fleet.Accounts.Totp.{
  is_open, begin_totp_setup, confirm_totp_setup, verify_totp_challenge, use_code,
  consume_recovery_code,
}
use virgo_fleet.Accounts.Requests.{
  Response, attempt, min_password_length, succeeded, gated, is_state, gate, log_in, log_out,
  mfa_setup, mfa_setup_verify, pass, mfa_verify, conclude, change_own_password, Event, step,
  logged_in, logged_out, setup_begun, setup_verified, verified, password_changed, session_revoked,
  others_revoked,
}
use virgo_fleet.Accounts.Rows.{
  any-append, any-keep, updated_sessions, revoked_sessions, destroy_sessions-sessions,
}

abbrev pub is_satisfied : ℕ → Session → Bool
is_satisfied token s = (s.token == token) && is_state satisfied s.mfa_state

-- A session with the token is satisfied.
abbrev pub has_satisfied : ℕ → Store → Bool
has_satisfied token st = any (is_satisfied token) st.sessions

satisfied_from :
    (t : ℕ) (l m : List Session)
    → l ≡ m
    → any (is_satisfied t) l ≡ true
    → any (is_satisfied t) m ≡ true
satisfied_from t l m e h = sym (ap (any (is_satisfied t)) e) ∙ h

set_satisfied :
    (t token : ℕ) (l : List Session)
    → any (is_satisfied t) (map (with_mfa_state token satisfied) l) ≡ true
    → (token == t || any (is_satisfied t) l) ≡ true
set_satisfied t token [] h = ground arith
set_satisfied t token (s ∷ l) h = ground (arith, set_satisfied t token l)

abbrev Kept : ℕ → Store → Store → Type 0
Kept t st st' = has_satisfied t st' ≡ true → has_satisfied t st ≡ true

destroy-Kept : (t : ℕ) (test : Session → Bool) (st : Store) → Kept t st (destroy_sessions test st)
destroy-Kept t test st h =
    any-keep (is_satisfied t) (λ s. not (test s)) st.sessions
      (satisfied_from t _ _ (destroy_sessions-sessions test st) h)

updated-Kept : (t u : ℕ) (st : Store) → Kept t st (emit_sessions_updated u st)
updated-Kept t u st h = satisfied_from t _ _ (updated_sessions u st) h

-- A row that is destroyed and reported.
row-Kept :
    (t u : ℕ) (s : Session) (st : Store)
    → Kept t st (emit_sessions_updated u (emit_sessions_revoked (s.id ∷ []) (destroy_row s st)))
row-Kept t u s st h =
    any-keep (is_satisfied t) (λ r. not (r.id == s.id)) st.sessions
      (satisfied_from t _ _ (revoked_sessions (s.id ∷ []) (destroy_row s st))
        (updated-Kept t u (emit_sessions_revoked (s.id ∷ []) (destroy_row s st)) h))

create-Kept :
    (t now id token u : ℕ) (m : MfaState) (st : Store)
    → is_state satisfied m ≡ false
    → Kept t st (create_session now id token u m st)
unfolding create_session
create-Kept t now id token u m st e h = destroy-Kept t (is_stale now u) st (
    ground (
      arith,
      any-append (is_satisfied t) cleared.sessions (new_session now id token u m ∷ []),
      updated-Kept t u (with_session (new_session now id token u m) cleared) h,
    ))
  where
    cleared : Store
    cleared = destroy_sessions (is_stale now u) st

set_kept :
    (t token : ℕ) (st : Store)
    → has_satisfied t (set_session_mfa_state token satisfied st) ≡ true
    → (token == t || has_satisfied t st) ≡ true
unfolding set_session_mfa_state
set_kept t token st h = set_satisfied t token st.sessions (
    updated-Kept t (owner_of (first (λ s. s.token == token) st.sessions))
      (record st { sessions = map (with_mfa_state token satisfied) st.sessions }) h)

abbrev pub pending_secret : ℕ → Store → ℕ
pending_secret user_id st = elim (find_user user_id st) [
  | none ↦ 0
  | some u ↦ u.totp_pending_secret
]

-- For enrollment the code must be of the user's pending secret, for a sign-in of the active secret,
-- unless an unused recovery code is given.
abbrev pub proves_pending : Crypto → (now code : ℕ) → Option (Session × User) → Store → Bool
proves_pending crypto now code none st = false
proves_pending crypto now code (some (s, u)) st =
    not (pending_secret u.id st == 0)
    && crypto.verify_token code (crypto.decrypt (pending_secret u.id st)) now

abbrev pub opens : Crypto → (user_id code : ℕ) → RecoveryCode → Bool
opens crypto user_id code row =
    is_open user_id row && crypto.verify_recovery_code code row.code_hash

abbrev pub proves_active :
    Crypto → (now code recovery_code : ℕ) → Option (Session × User) → Store → Bool
proves_active crypto now code recovery_code none st = false
proves_active crypto now code recovery_code (some (s, u)) st =
    if recovery_code == 0
    then verify_totp_challenge crypto now u.id code st
    else any (opens crypto u.id recovery_code) st.recovery_codes

-- The request clears the second factor of the session with the token: it comes with that token, the
-- session is live and waits for just this request, and the code is right.
unfoldable pub clears : (crypto : Crypto) → Event crypto → ℕ → Store → Bool
clears crypto (setup_verified now token code codes) t st =
    (token == t) && proves_pending crypto now code (gate now token setup_required st) st
clears crypto (verified now token code recovery_code) t st =
    (token == t)
    && proves_active crypto now code recovery_code (gate now token challenge_required st) st
clears crypto _ t st = false

module _ (crypto : Crypto) (t : ℕ) (st : Store) where
  abbrev Keeps : Response → Type 0
  Keeps o = Kept t st o.0

  abbrev KeepsStore : Result Store → Type 0
  KeepsStore r = Keeps (attempt r st λ st'. (st', succeeded))

  abbrev KeepsLogin : Result (Store × MfaState) → Type 0
  KeepsLogin r = Keeps (attempt r st λ (st', mfa_state). (st', gated mfa_state))

  log_in-Keeps :
      (now id token email password : ℕ) → Keeps (log_in crypto now id token email password st)
  unfolding log_in login attempt
  log_in-Keeps now id token email password =
      Option_keeps KeepsLogin (get_user_by_email email st) _ _ (λ _ h. h)
        λ u _.
          if_keeps KeepsLogin u.is_disabled _ _ (λ _ h. h)
            λ _.
              if_keeps KeepsLogin (not (crypto.compare_password password u.password_hash)) _ _
                (λ _ h. h)
                λ _. create-Kept t now id token u.id (first_state crypto u) st (
                  if_keeps (λ m. is_state satisfied m ≡ false) u.totp_enabled _ _ (λ _. refl)
                    (λ _. refl))

  log_out-Keeps : (token : ℕ) → Keeps (log_out crypto token st)
  unfolding log_out delete_session
  log_out-Keeps token =
      if_keeps (Kept t st) (token == 0) _ _ (λ _ h. h)
        λ _.
          Option_keeps (Kept t st) (first (λ s. s.token == token) st.sessions) _ _ (λ _ h. h)
            λ s _. row-Kept t s.user_id s st

  mfa_setup-Keeps : (now token secret : ℕ) → Keeps (mfa_setup crypto now token secret st)
  unfolding mfa_setup begin_totp_setup attempt
  mfa_setup-Keeps now token secret =
      Option_keeps Keeps (gate now token setup_required st) _ _ (λ _ h. h)
        λ (s, u) _. Option_keeps KeepsStore (find_user u.id st) _ _ (λ _ h. h) (λ v _ h. h)

  change_password-Keeps :
      (email password : ℕ)
      → Keeps (attempt (change_password crypto email password st) st λ st'. (st', succeeded))
  unfolding change_password attempt
  change_password-Keeps email password =
      Option_keeps KeepsStore (get_user_by_email email st) _ _ (λ _ h. h)
        λ u _ h.
          destroy-Kept t (λ s. s.user_id == u.id)
            (save_user (record u { password_hash = crypto.hash_password password }) st)
            (updated-Kept t u.id
              (destroy_sessions (λ s. s.user_id == u.id)
                (save_user (record u { password_hash = crypto.hash_password password }) st))
              h)

  change_own_password-Keeps :
      (now token current password length : ℕ)
      → Keeps (change_own_password crypto now token current password length st)
  unfolding change_own_password
  change_own_password-Keeps now token current password length =
      Option_keeps Keeps (gate now token satisfied st) _ _ (λ _ h. h)
        λ (s, u) _.
          if_keeps Keeps (current == 0) _ _ (λ _ h. h)
            λ _.
              if_keeps Keeps ((password == 0) || ltb length min_password_length) _ _ (λ _ h. h)
                λ _.
                  Option_keeps Keeps (verify_credentials crypto u.email current st) _ _ (λ _ h. h)
                    λ v _. change_password-Keeps u.email password

  -- Finding a code that matches is finding the first.
  use_code_lem :
      (u code : ℕ) (rows : List RecoveryCode)
      → (use_code crypto u code rows).0 ≡ any (opens crypto u code) rows
  unfolding use_code
  use_code_lem u code [] = refl
  use_code_lem u code (row ∷ rows) = ground (arith, use_code_lem u code rows)

  pass_lem :
      (now u code recovery_code : ℕ)
      → (pass crypto now u code recovery_code st).0 ≡ (
          if recovery_code == 0
          then verify_totp_challenge crypto now u code st
          else any (opens crypto u recovery_code) st.recovery_codes)
  unfolding pass consume_recovery_code
  pass_lem now u code recovery_code = ground (arith, use_code_lem u recovery_code st.recovery_codes)

  pass_sessions :
      (now u code recovery_code : ℕ)
      → (pass crypto now u code recovery_code st).1.sessions ≡ st.sessions
  unfolding pass consume_recovery_code
  pass_sessions now u code recovery_code =
      if_keeps (λ (o : Bool × Store). o.1.sessions ≡ st.sessions) (recovery_code == 0) _ _
        (λ _. refl) (λ _. refl)

  conclude-Clears :
      (token : ℕ) (p : Bool × Store)
      → p.1.sessions ≡ st.sessions
      → has_satisfied t (conclude crypto token p).0 ≡ true
      → (has_satisfied t st || ((token == t) && p.0)) ≡ true
  unfolding conclude
  conclude-Clears token (true, st') e h =
      let k = satisfied_from t _ _ e in ground (arith, set_kept t token st' h, k)
  conclude-Clears token (false, st') e h = ground (arith, satisfied_from t _ _ e h)

  mfa_verify-Clears :
      (now token code recovery_code : ℕ)
      → has_satisfied t (mfa_verify crypto now token code recovery_code st).0 ≡ true
      → (has_satisfied t st
          || ((token == t)
              && proves_active crypto now code recovery_code
                  (gate now token challenge_required st)
                  st))
        ≡ true
  unfolding mfa_verify
  mfa_verify-Clears now token code recovery_code =
      elim (Option-cases (gate now token challenge_required st)) [
        | inl e ↦ rw (mfa_verify, e) λ h. ground (arith)
        | inr ((s, u), e) ↦
            rw (mfa_verify, e, sym (pass_lem now u.id code recovery_code))
              (conclude-Clears token (pass crypto now u.id code recovery_code st)
                (pass_sessions now u.id code recovery_code))
      ]

  abbrev Lifts : ℕ → Bool → Result Store → Type 0
  Lifts token b r =
      has_satisfied t (attempt r st λ st'. (set_session_mfa_state token satisfied st', succeeded)).0
        ≡ true
      → (has_satisfied t st || ((token == t) && b)) ≡ true

  confirm-Lifts :
      (now token u code : ℕ) (codes : List ℕ)
      → Lifts token
          (not (pending_secret u st == 0)
            && crypto.verify_token code (crypto.decrypt (pending_secret u st)) now)
          (confirm_totp_setup crypto now u code codes st)
  unfolding confirm_totp_setup attempt
  confirm-Lifts now token u code codes = elim (Option-cases (find_user u st)) [
    | inl e ↦ rw (confirm_totp_setup, pending_secret, e) λ h. ground arith
    | inr (v, e) ↦
        rw (confirm_totp_setup, pending_secret, e)
          (if_keeps (Lifts token (proof v)) (v.totp_pending_secret == 0) _ _ (λ _ h. ground arith)
            λ f.
              if_keeps (Lifts token (proof v))
                (not (crypto.verify_token code (crypto.decrypt v.totp_pending_secret) now)) _ _
                (λ _ h. ground arith) λ g h. ground (arith, set_kept t token _ h))
  ]
    where
      proof : User → Bool
      proof v =
          not (v.totp_pending_secret == 0)
          && crypto.verify_token code (crypto.decrypt v.totp_pending_secret) now

  mfa_setup_verify-Clears :
      (now token code : ℕ) (codes : List ℕ)
      → has_satisfied t (mfa_setup_verify crypto now token code codes st).0 ≡ true
      → (has_satisfied t st
          || ((token == t) && proves_pending crypto now code (gate now token setup_required st) st))
        ≡ true
  unfolding mfa_setup_verify
  mfa_setup_verify-Clears now token code codes =
      elim (Option-cases (gate now token setup_required st)) [
        | inl e ↦ rw (mfa_setup_verify, e) λ h. ground (arith)
        | inr ((s, u), e) ↦ rw (mfa_setup_verify, e) (confirm-Lifts now token u.id code codes)
      ]

  revoke-Keeps : (u id : ℕ) → KeepsStore (revoke_session u id st)
  unfolding revoke_session attempt
  revoke-Keeps u id =
      Option_keeps KeepsStore (first (λ s. (s.id == id) && (s.user_id == u)) st.sessions) _ _
        (λ _ h. h) λ s _. row-Kept t u s st

  others-Keeps : (u token : ℕ) → Kept t st (revoke_other_sessions u token st)
  unfolding revoke_other_sessions
  others-Keeps u token =
      if_keeps (Kept t st) (any (λ s. (s.user_id == u) && not (s.token == token)) st.sessions) _ _
        (λ _ h.
          destroy-Kept t (λ s. (s.user_id == u) && not (s.token == token)) st
            (updated-Kept t u
              (destroy_sessions (λ s. (s.user_id == u) && not (s.token == token)) st) h))
        (λ _ h. h)

  or_kept : has_satisfied t st ≡ true → (has_satisfied t st || false) ≡ true
  or_kept h = ground (arith, h)

-- After a request of src/controllers/auth.js or a revocation, a session is satisfied only if one with
-- its token was before, or the request clears its second factor: it comes with that token while the
-- live session waits for just that request, and its code is right.
pub step-Clears :
    (crypto : Crypto) (event : Event crypto) (t : ℕ) (st : Store)
    → has_satisfied t (step crypto event st).0 ≡ true
    → (has_satisfied t st || clears crypto event t st) ≡ true
unfolding step clears
step-Clears crypto (logged_in now id token email password) t st =
    λ h. or_kept crypto t st (log_in-Keeps crypto t st now id token email password h)
step-Clears crypto (logged_out token) t st =
    λ h. or_kept crypto t st (log_out-Keeps crypto t st token h)
step-Clears crypto (setup_begun now token secret) t st =
    λ h. or_kept crypto t st (mfa_setup-Keeps crypto t st now token secret h)
step-Clears crypto (setup_verified now token code codes) t st =
    mfa_setup_verify-Clears crypto t st now token code codes
step-Clears crypto (verified now token code recovery_code) t st =
    mfa_verify-Clears crypto t st now token code recovery_code
step-Clears crypto (password_changed now token current password length) t st = λ h.
    or_kept crypto t st (change_own_password-Keeps crypto t st now token current password length h)
step-Clears crypto (session_revoked u id) t st =
    λ h. or_kept crypto t st (revoke-Keeps crypto t st u id h)
step-Clears crypto (others_revoked u token) t st =
    λ h. or_kept crypto t st (others-Keeps crypto t st u token h)
