-- ===== src/Accounts/Tests.antt =====
-- The sign-in theorems at an account that signs in on two browsers.
use virgo_fleet.Base.{ℕ, ◌+◌, ◌≡◌, refl, true, false, ◌||◌, [], ◌∷◌, some, ◌==◌}
use virgo_fleet.Accounts.State.{
  MfaState, challenge_required, satisfied, User, Session, RecoveryCode, Store, Crypto,
  get_user_by_email, emit, emit_sessions_updated, emit_sessions_revoked, destroy_sessions,
  sessions_revoked, sessions_updated,
}
use virgo_fleet.Accounts.Sessions.{
  change_password, get_session_by_token, set_session_mfa_state, returns,
}
use virgo_fleet.Accounts.Totp.{consume_recovery_code, use_code}
use virgo_fleet.Accounts.Requests.{
  session_from_request, gate, pass, conclude, mfa_verify, step, verified, password_changed,
}
use virgo_fleet.Accounts.Gating.{has_satisfied, clears, step-Clears}
use virgo_fleet.Accounts.Accounting.{IsAccounted, step-IsAccounted}
use virgo_fleet.Accounts.Recovery.{
  IsConsumed, consume_recovery_code-IsConsumed, has_session_of, change_password_lem,
}

-- A hash is the number plus 500; the code of a secret is the secret.
abbrev crypto : Crypto
crypto = record {
  hash_password = λ p. p + 500;
  compare_password = λ p h. (p + 500) == h;
  encrypt = λ s. s + 7;
  decrypt = λ s. s + 0;
  verify_token = λ code secret now. code == secret;
  hash_recovery_code = λ c. c + 500;
  verify_recovery_code = λ c h. (c + 500) == h;
}

abbrev account : User
account = record {
  id = 3;
  email = 30;
  password_hash = 512;
  is_disabled = false;
  totp_secret = 77;
  totp_pending_secret = 0;
  totp_enabled = true;
}

abbrev browser : ℕ → ℕ → MfaState → Session
browser id token mfa_state = record {
  id = id;
  token = token;
  user_id = 3;
  expires_at = 900;
  mfa_state = mfa_state;
}

abbrev code : ℕ → RecoveryCode
code plain = record { user_id = 3; code_hash = plain + 500; is_used = false }

-- Session 51 is satisfied, session 52 waits for its code.
abbrev signed_in : Store
signed_in = record {
  users = account ∷ [];
  sessions = browser 51 1001 satisfied ∷ browser 52 1002 challenge_required ∷ [];
  recovery_codes = code 21 ∷ code 22 ∷ [];
  out = [];
}

lifted : has_satisfied 1002 (step crypto (verified 800 1002 0 22) signed_in).0 ≡ true
unfolding step mfa_verify gate session_from_request get_session_by_token pass consume_recovery_code
    use_code conclude set_session_mfa_state emit_sessions_updated emit
lifted = refl

step-Clears_example :
    (has_satisfied 1002 signed_in || clears crypto (verified 800 1002 0 22) 1002 signed_in) ≡ true
step-Clears_example = step-Clears crypto (verified 800 1002 0 22) 1002 signed_in lifted

step-IsAccounted_example :
    IsAccounted 52 (step crypto (password_changed 800 1001 12 13 9) signed_in).0
step-IsAccounted_example =
    step-IsAccounted crypto (password_changed 800 1001 12 13 9) 52 signed_in refl

consume_recovery_code-IsConsumed_example :
    IsConsumed crypto 3 22 signed_in.recovery_codes (
      (consume_recovery_code crypto 3 22 signed_in).0,
      (consume_recovery_code crypto 3 22 signed_in).1.recovery_codes,
    )
    × ((consume_recovery_code crypto 3 22 signed_in).1 ≡ record signed_in {
      recovery_codes = (consume_recovery_code crypto 3 22 signed_in).1.recovery_codes;
    })
consume_recovery_code-IsConsumed_example = consume_recovery_code-IsConsumed crypto 3 22 signed_in

abbrev changed : Store
changed = record signed_in {
  users = record account { password_hash = 513 } ∷ [];
  sessions = [];
  out = sessions_revoked (51 ∷ 52 ∷ []) ∷ sessions_updated 3 ∷ [];
}

changes : change_password crypto 30 13 signed_in ≡ returns changed
unfolding change_password get_user_by_email destroy_sessions emit_sessions_revoked
    emit_sessions_updated emit
changes = refl

account_found : get_user_by_email 30 signed_in ≡ some account
unfolding get_user_by_email
account_found = refl

change_password_lem_example : has_session_of 3 changed ≡ false
change_password_lem_example =
    change_password_lem crypto 30 13 account signed_in changed account_found changes
