-- ===== src/Accounts/CeremonyTests.antt =====
-- The sign-up and passkey theorems at one account that is confirmed and one device.
use virgo_fleet.Base.{
  ℕ, ◌+◌, ◌≡◌, refl, true, false, [], ◌∷◌, Option, none, some, ◌==◌, ◌⊎◌, is_some, any,
  if◌then◌else◌,
}
use virgo_fleet.Accounts.State.{
  User, Store, Crypto, get_user_by_email, destroy_sessions, emit_sessions_updated,
  emit_sessions_revoked, emit,
}
use virgo_fleet.Accounts.Sessions.{create_session}
use virgo_fleet.Accounts.Signup.{
  Signups, SignupEvent, confirmed, link_opened, stored, signup_step, new_pending,
  check_pending_user, store_pending_user, find_pending_user, promote, upsert_pending,
}
use virgo_fleet.Accounts.Promotion.{IsIdle, Confirms, signup_step-Confirms}
use virgo_fleet.Accounts.Passkeys.{
  registration, authentication, Challenge, Credential, Passkeys, consume_webauthn_challenge,
  assert_credential, complete_passkey_authentication,
}
use virgo_fleet.Accounts.Ceremonies.{
  IsLive, IsAsserted, consume_webauthn_challenge-twice, complete_passkey_authentication-IsAsserted,
}

abbrev crypto : Crypto
crypto = record {
  hash_password = λ p. p + 500;
  compare_password = λ p h. (p + 500) == h;
  encrypt = λ s. s;
  decrypt = λ s. s;
  verify_token = λ code secret now. code == secret;
  hash_recovery_code = λ c. c;
  verify_recovery_code = λ c h. c == h;
}

abbrev owner : User
owner = record {
  id = 3;
  email = 30;
  password_hash = 512;
  is_disabled = false;
  totp_secret = 77;
  totp_pending_secret = 0;
  totp_enabled = true;
}

abbrev accounts : Store
accounts = record { users = owner ∷ []; sessions = []; recovery_codes = []; out = [] }

-- Email 40 has been mailed the token 900.
abbrev waiting : Signups
waiting = record {
  accounts = accounts;
  pending = new_pending crypto 10 900 40 0 12 ∷ [];
  found = [];
}

abbrev opened : Signups
opened = signup_step crypto (link_opened 20 900) waiting

abbrev confirmation : SignupEvent crypto
confirmation = confirmed 21 4 60 1003 900

signup_step-Confirms_example :
    IsIdle opened (signup_step crypto confirmation opened)
    ⊎ Confirms crypto confirmation opened (signup_step crypto confirmation opened)
signup_step-Confirms_example = signup_step-Confirms crypto confirmation opened

-- A second sign-up of email 40 is checked, the first is confirmed, and the second is stored.
abbrev overlapping : Signups
overlapping = signup_step crypto (stored 22 901 40 0 13) (signup_step crypto confirmation opened)

checked : check_pending_user crypto 40 13 opened ≡ none
unfolding check_pending_user get_user_by_email signup_step find_pending_user
checked = refl

-- The email is then that of an account and of a pending account.
in_both_tables :
    (is_some (get_user_by_email 40 overlapping.accounts) ≡ true)
    × (any (λ p. p.email == 40) overlapping.pending ≡ true)
unfolding signup_step find_pending_user promote store_pending_user upsert_pending create_session
    get_user_by_email destroy_sessions emit_sessions_updated emit_sessions_revoked emit
in_both_tables = (refl, refl)

-- One challenge of a sign-in, and one device.
abbrev device : Passkeys
device = record {
  accounts = accounts;
  challenges =
      record { id = 71; challenge = 9; ceremony = authentication; user_id = 0; expires_at = 150 }
      ∷ [];
  credentials = record { credential_id = 81; user_id = 3; counter = 1; last_used_at = 0 } ∷ [];
}

consume_webauthn_challenge-twice_example :
    (consume_webauthn_challenge 101 71 authentication
      (consume_webauthn_challenge 100 71 registration device).0).1
    ≡ none
consume_webauthn_challenge-twice_example =
    consume_webauthn_challenge-twice 100 101 71 registration authentication device

abbrev verify : Challenge → Credential → Option ℕ
verify row c = if row.challenge == 9 then some (c.counter + 1) else none

signs_in : (complete_passkey_authentication 100 61 1004 71 81 verify device).1 ≡ none
unfolding complete_passkey_authentication assert_credential consume_webauthn_challenge
signs_in = refl

complete_passkey_authentication-IsAsserted_example :
    (row : Challenge) × IsLive 100 71 authentication device row
    × IsAsserted 81 verify row device.credentials device.accounts
complete_passkey_authentication-IsAsserted_example =
    complete_passkey_authentication-IsAsserted 100 61 1004 81 verify 71 device signs_in
