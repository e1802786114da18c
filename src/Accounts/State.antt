-- ===== src/Accounts/State.antt =====
-- src/database/models/ (User.js, Session.js, RecoveryCode.js): the rows that sign-in reads and writes.
-- Ids, emails, tokens, secrets and hashes are numbers; 0 is null or the empty string.
use virgo_fleet.Base.{
  ℕ, Bool, not, List, [], ◌∷◌, ◌++◌, Option, none, ◌==◌, if◌then◌else◌, first, keep, map,
}

pub data MfaState : Type 0 where
  setup_required challenge_required satisfied : MfaState

-- `totp_enabled` is `Boolean(totpEnabledAt)`.
pub record User : Type 0 where
  pub id : ℕ
  pub email : ℕ
  pub password_hash : ℕ
  pub is_disabled : Bool
  pub totp_secret : ℕ
  pub totp_pending_secret : ℕ
  pub totp_enabled : Bool

pub record Session : Type 0 where
  pub id : ℕ
  pub token : ℕ
  pub user_id : ℕ
  pub expires_at : ℕ
  pub mfa_state : MfaState

pub record RecoveryCode : Type 0 where
  pub user_id : ℕ
  pub code_hash : ℕ
  pub is_used : Bool

pub data Effect : Type 0 where
  sessions_updated : (user_id : ℕ) → Effect
  sessions_revoked : (session_ids : List ℕ) → Effect

pub record Store : Type 0 where
  pub users : List User
  pub sessions : List Session
  pub recovery_codes : List RecoveryCode
  pub out : List Effect

-- What the code calls: bcrypt, the TOTP check and the encryption of secrets.
pub record Crypto : Type 0 where
  pub hash_password : ℕ → ℕ
  pub compare_password : (password hash : ℕ) → Bool
  pub encrypt : ℕ → ℕ
  pub decrypt : ℕ → ℕ
  pub verify_token : (code secret now : ℕ) → Bool
  pub hash_recovery_code : ℕ → ℕ
  pub verify_recovery_code : (code hash : ℕ) → Bool

abbrev pub find_user : ℕ → Store → Option User
find_user id st = first (λ u. u.id == id) st.users

unfoldable pub get_user_by_email : ℕ → Store → Option User
get_user_by_email email st = if email == 0 then none else first (λ u. u.email == email) st.users

-- `user.save()`
abbrev pub save_user : User → Store → Store
save_user u st = record st { users = map (λ v. if v.id == u.id then u else v) st.users }

unfoldable pub emit : Effect → Store → Store
emit e st = record st { out = st.out ++ e ∷ [] }

unfoldable pub emit_sessions_updated : ℕ → Store → Store
emit_sessions_updated user_id st = if user_id == 0 then st else emit (sessions_updated user_id) st

unfoldable pub emit_sessions_revoked : List ℕ → Store → Store
emit_sessions_revoked [] st = st
emit_sessions_revoked (id ∷ ids) st = emit (sessions_revoked (id ∷ ids)) st

abbrev pub ids_of : List Session → List ℕ
ids_of sessions = map (λ s. s.id) sessions

-- `destroySessions(where)` and `emitSessionsRevoked` of its answer.
unfoldable pub destroy_sessions : (Session → Bool) → Store → Store
destroy_sessions test st =
    emit_sessions_revoked (ids_of (keep test st.sessions))
      (record st { sessions = keep (λ s. not (test s)) st.sessions })
