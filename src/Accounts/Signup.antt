-- ===== src/Accounts/Signup.antt =====
-- src/services/data_service.js, lines 564 to 643: sign-up by mail. A pending account is keyed by its
-- email, which is unique. A sign-up is two steps, its check and what it stores, and so is a
-- confirmation, its search and the rest, since others may come between them.
use virgo_fleet.Base.{
  ℕ, ◌+◌, ◌*◌, false, not, ◌&&◌, ◌||◌, List, [], ◌∷◌, ◌++◌, Option, none, some, ◌==◌, ltb,
  if◌then◌else◌, first, keep, is_some,
}
use virgo_fleet.Accounts.State.{User, Store, Crypto, setup_required, get_user_by_email}
use virgo_fleet.Accounts.Sessions.{create_session}

pub record PendingUser : Type 0 where
  pub email : ℕ
  pub name : ℕ
  pub password_hash : ℕ
  pub verification_token : ℕ
  pub expires_at : ℕ

pub record Signups : Type 0 where
  pub accounts : Store
  pub pending : List PendingUser
  -- The rows that confirmations have found, and may promote at any later time.
  pub found : List PendingUser

pub data SignupFault : Type 0 where
  email_and_password_required user_already_exists : SignupFault

-- The state after the call, and what it throws, if it does.
abbrev pub Outcome : Type 0
Outcome = Signups × Option SignupFault

abbrev pub pending_ttl_ms : ℕ
pending_ttl_ms = 1000 * 60 * 30

-- `PendingUser.upsert`, keyed on the unique email.
unfoldable pub upsert_pending : PendingUser → List PendingUser → List PendingUser
upsert_pending p [] = p ∷ []
upsert_pending p (q ∷ rows) = if q.email == p.email then p ∷ rows else q ∷ upsert_pending p rows

abbrev pub drop_pending : ℕ → List PendingUser → List PendingUser
drop_pending email rows = keep (λ p. not (p.email == email)) rows

abbrev pub new_user : ℕ → PendingUser → User
new_user id p = record {
  id = id;
  email = p.email;
  password_hash = p.password_hash;
  is_disabled = false;
  totp_secret = 0;
  totp_pending_secret = 0;
  totp_enabled = false;
}

abbrev pub with_user : User → Store → Store
with_user u st = record st { users = st.users ++ u ∷ [] }

module _ (crypto : Crypto) where
  abbrev pub new_pending : (now token email name password : ℕ) → PendingUser
  new_pending now token email name password = record {
    email = email;
    name = if name == 0 then email else name;
    password_hash = crypto.hash_password password;
    verification_token = token;
    expires_at = now + pending_ttl_ms;
  }

  -- The checks of `createPendingUser`: what it throws, if it does.
  unfoldable pub check_pending_user : (email password : ℕ) → Signups → Option SignupFault
  check_pending_user email password st =
      if (email == 0) || (password == 0)
      then some email_and_password_required
      else if is_some (get_user_by_email email st.accounts)
      then some user_already_exists
      else none

  -- The rest of it, with the token of the random source: the rows that have run out go, the new one
  -- comes.
  unfoldable pub store_pending_user : (now token email name password : ℕ) → Signups → Signups
  store_pending_user now token email name password st = record st {
    pending =
        upsert_pending (new_pending now token email name password)
          (keep (λ p. not (ltb p.expires_at now)) st.pending);
  }

  -- `deletePendingUser`
  unfoldable pub delete_pending_user : (email : ℕ) → Signups → Signups
  delete_pending_user email st =
      if email == 0 then st else record st { pending = drop_pending email st.pending }

  -- What `verifyPendingUser` does with the pending row it has found. The account of another
  -- confirmation of the email is seen by its check, or by the unique email of its transaction.
  -- The row goes by its email, where the code uses its id.
  unfoldable pub promote :
      (now user_id session_id session_token : ℕ) → PendingUser → Signups → Outcome
  promote now user_id session_id session_token p st =
      if is_some (get_user_by_email p.email st.accounts)
      then (record st { pending = drop_pending p.email st.pending }, some user_already_exists)
      else (
        record st {
          accounts =
              create_session now session_id session_token user_id setup_required
                (with_user (new_user user_id p) st.accounts);
          pending = drop_pending p.email st.pending;
        },
        none,
      )

  -- The search of `verifyPendingUser`; where there is no such row, it throws that the link is
  -- invalid.
  unfoldable pub find_pending_user : (now token : ℕ) → Signups → Option PendingUser
  find_pending_user now token st =
      if token == 0
      then none
      else first (λ p. (p.verification_token == token) && ltb now p.expires_at) st.pending

  -- A sign-up that was checked may store its row at any later time.
  pub data SignupEvent : Type 0 where
    stored : (now token email name password : ℕ) → SignupEvent
    mail_failed : (email : ℕ) → SignupEvent
    link_opened : (now token : ℕ) → SignupEvent
    confirmed : (now user_id session_id session_token token : ℕ) → SignupEvent

  -- The requests of src/controllers/auth.js; a sign-up whose mail does not go out is taken back.
  unfoldable pub signup_step : SignupEvent → Signups → Signups
  unfolding store_pending_user delete_pending_user find_pending_user promote
  signup_step (stored now token email name password) st =
      store_pending_user now token email name password st
  signup_step (mail_failed email) st = delete_pending_user email st
  signup_step (link_opened now token) st = elim (find_pending_user now token st) [
    | none ↦ st
    | some p ↦ record st { found = p ∷ st.found }
  ]
  signup_step (confirmed now user_id session_id session_token token) st =
      elim (first (λ p. p.verification_token == token) st.found) [
        | none ↦ st
        | some p ↦ (promote now user_id session_id session_token p st).0
      ]
