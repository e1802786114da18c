-- ===== src/Accounts/Passkeys.antt =====
-- src/services/data_service.js, lines 438 to 560: passkeys and the challenges of their ceremonies. The
-- WebAuthn library's verification is an argument: the counter that it answers with, or none.
use virgo_fleet.Base.{
  ℕ, ◌+◌, ◌*◌, Bool, true, false, not, ◌||◌, List, [], ◌∷◌, ◌++◌, Option, none, some, ◌==◌, ltb,
  if◌then◌else◌, first, keep, map,
}
use virgo_fleet.Accounts.State.{Store, satisfied, find_user}
use virgo_fleet.Accounts.Sessions.{create_session}

pub data CeremonyType : Type 0 where
  registration authentication : CeremonyType

pub record Challenge : Type 0 where
  pub id : ℕ
  pub challenge : ℕ
  pub ceremony : CeremonyType
  pub user_id : ℕ
  pub expires_at : ℕ

pub record Credential : Type 0 where
  pub credential_id : ℕ
  pub user_id : ℕ
  pub counter : ℕ
  pub last_used_at : ℕ

pub record Passkeys : Type 0 where
  pub accounts : Store
  pub challenges : List Challenge
  pub credentials : List Credential

pub data PasskeyFault : Type 0 where
  user_missing enrollment_expired sign_in_expired not_verified not_enrolled : PasskeyFault
  account_disabled : PasskeyFault

abbrev pub Outcome : Type 0
Outcome = Passkeys × Option PasskeyFault

abbrev pub webauthn_challenge_ttl_ms : ℕ
webauthn_challenge_ttl_ms = 1000 * 60 * 2

abbrev pub is_ceremony : CeremonyType → CeremonyType → Bool
is_ceremony registration registration = true
is_ceremony authentication authentication = true
is_ceremony _ _ = false

-- `createWebauthnChallenge`, with the id of the random source.
unfoldable pub create_webauthn_challenge :
    (now id challenge : ℕ) → CeremonyType → (user_id : ℕ) → Passkeys → Passkeys
create_webauthn_challenge now id challenge ceremony user_id st = record st {
  challenges =
      keep (λ c. not (ltb c.expires_at now)) st.challenges
      ++ record {
        id = id;
        challenge = challenge;
        ceremony = ceremony;
        user_id = user_id;
        expires_at = now + webauthn_challenge_ttl_ms;
      }
        ∷ [];
}

abbrev pub without_challenge : ℕ → Passkeys → Passkeys
without_challenge id st = record st { challenges = keep (λ c. not (c.id == id)) st.challenges }

-- `consumeWebauthnChallenge`: the row goes whether or not it matches. Its search and its deletion are
-- one step.
unfoldable pub consume_webauthn_challenge :
    (now id : ℕ) → CeremonyType → Passkeys → Passkeys × Option Challenge
consume_webauthn_challenge now id ceremony st =
    if id == 0 then (st, none) else elim (first (λ c. c.id == id) st.challenges) [
      | none ↦ (st, none)
      | some row ↦ (
        without_challenge id st,
        if not (is_ceremony row.ceremony ceremony) || ltb row.expires_at now
            then none
            else some row,
      )
    ]

-- `beginPasskeyRegistration` and `beginPasskeyAuthentication`, with the options' challenge.
unfoldable pub begin_passkey_registration : (now id challenge user_id : ℕ) → Passkeys → Outcome
begin_passkey_registration now id challenge user_id st = elim (find_user user_id st.accounts) [
  | none ↦ (st, some user_missing)
  | some u ↦ (create_webauthn_challenge now id challenge registration user_id st, none)
]

unfoldable pub begin_passkey_authentication : (now id challenge : ℕ) → Passkeys → Passkeys
begin_passkey_authentication now id challenge st =
    create_webauthn_challenge now id challenge authentication 0 st

-- What follows a challenge that was redeemed.
unfoldable pub enroll :
    (user_id : ℕ) → (verify : ℕ → Option Credential) → Passkeys × Option Challenge → Outcome
enroll user_id verify (st, none) = (st, some enrollment_expired)
enroll user_id verify (st, some row) =
    if not (row.user_id == user_id)
    then (st, some enrollment_expired)
    else elim (verify row.challenge) [
      | none ↦ (st, some not_verified)
      | some c ↦
          (record st { credentials = st.credentials ++ record c { user_id = user_id } ∷ [] }, none)
    ]

-- `completePasskeyRegistration`. `verify` is `verifyRegistration` on the response.
unfoldable pub complete_passkey_registration :
    (now user_id challenge_id : ℕ) → (verify : ℕ → Option Credential) → Passkeys → Outcome
complete_passkey_registration now user_id challenge_id verify st =
    enroll user_id verify (consume_webauthn_challenge now challenge_id registration st)

abbrev pub used : (now counter : ℕ) → Credential → Credential → Credential
used now counter c d =
    if d.credential_id == c.credential_id
    then record c { counter = counter; last_used_at = now }
    else d

abbrev pub with_use : (now counter : ℕ) → Credential → Passkeys → Passkeys
with_use now counter c st = record st { credentials = map (used now counter c) st.credentials }

-- A verified assertion makes a session that is satisfied.
abbrev pub sign_in : (now session_id token : ℕ) → (counter : ℕ) → Credential → Passkeys → Passkeys
sign_in now session_id token counter c st = record (with_use now counter c st) {
  accounts = create_session now session_id token c.user_id satisfied st.accounts;
}

-- The credential of the response, and its user.
unfoldable pub assert_credential :
    (now session_id token credential_id : ℕ)
    → (verify : Challenge → Credential → Option ℕ) → Passkeys × Option Challenge
    → Outcome
assert_credential now session_id token credential_id verify (st, none) = (st, some sign_in_expired)
assert_credential now session_id token credential_id verify (st, some row) =
    elim (first (λ c. c.credential_id == credential_id) st.credentials) [
      | none ↦ (st, some not_enrolled)
      | some c ↦ elim (find_user c.user_id st.accounts) [
        | none ↦ (st, some not_enrolled)
        | some u ↦ if u.is_disabled then (st, some account_disabled) else elim (verify row c) [
          | none ↦ (st, some not_verified)
          | some counter ↦ (sign_in now session_id token counter c st, none)
        ]
      ]
    ]

-- `completePasskeyAuthentication`. `verify` is `verifyAuthentication` on the response, none also
-- where it throws.
unfoldable pub complete_passkey_authentication :
    (now session_id token challenge_id credential_id : ℕ)
    → (verify : Challenge → Credential → Option ℕ) → Passkeys
    → Outcome
complete_passkey_authentication now session_id token challenge_id credential_id verify st =
    assert_credential now session_id token credential_id verify
      (consume_webauthn_challenge now challenge_id authentication st)

-- `disablePasskeys`
unfoldable pub disable_passkeys : (user_id : ℕ) → Passkeys → Passkeys
disable_passkeys user_id st = record st {
  credentials = keep (λ c. not (c.user_id == user_id)) st.credentials;
}
