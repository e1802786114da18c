-- ===== src/Accounts/Totp.antt =====
-- src/services/data_service.js, lines 373 to 436: two-factor enrollment, codes and recovery codes.
use virgo_fleet.Base.{
  ℕ, Bool, true, false, not, ◌&&◌, List, [], ◌∷◌, ◌++◌, none, some, ◌==◌, if◌then◌else◌, keep, map,
  length,
}
use virgo_fleet.Accounts.State.{User, RecoveryCode, Store, Crypto, find_user, save_user}
use virgo_fleet.Accounts.Sessions.{
  Result, throws, returns, user_not_found, no_setup_in_progress, code_not_valid,
}

abbrev pub is_open : ℕ → RecoveryCode → Bool
is_open user_id row = (row.user_id == user_id) && not row.is_used

module _ (crypto : Crypto) where
  -- The secret is the random source's.
  unfoldable pub begin_totp_setup : (user_id secret : ℕ) → Store → Result Store
  begin_totp_setup user_id secret st = elim (find_user user_id st) [
    | none ↦ throws user_not_found
    | some u ↦ returns (save_user (record u { totp_pending_secret = crypto.encrypt secret }) st)
  ]

  abbrev pub enrolled : User → User
  enrolled u = record u {
    totp_secret = u.totp_pending_secret;
    totp_pending_secret = 0;
    totp_enabled = true;
  }

  abbrev pub issue : ℕ → ℕ → RecoveryCode
  issue user_id code = record {
    user_id = user_id;
    code_hash = crypto.hash_recovery_code code;
    is_used = false;
  }

  -- One transaction: the user's row, and the recovery codes that replace the old ones.
  unfoldable pub confirm_totp_setup :
      (now user_id code : ℕ) → (recovery_codes : List ℕ) → Store → Result Store
  confirm_totp_setup now user_id code recovery_codes st = elim (find_user user_id st) [
    | none ↦ throws no_setup_in_progress
    | some u ↦
        if u.totp_pending_secret == 0
        then throws no_setup_in_progress
        else if not (crypto.verify_token code (crypto.decrypt u.totp_pending_secret) now)
        then throws code_not_valid
        else returns (record (save_user (enrolled u) st) {
          recovery_codes =
              keep (λ r. not (r.user_id == user_id)) st.recovery_codes
              ++ map (issue user_id) recovery_codes;
        })
  ]

  unfoldable pub verify_totp_challenge : (now user_id code : ℕ) → Store → Bool
  verify_totp_challenge now user_id code st = elim (find_user user_id st) [
    | none ↦ false
    | some u ↦
        not (u.totp_secret == 0) && crypto.verify_token code (crypto.decrypt u.totp_secret) now
  ]

  -- The loop over the unused rows: the first that matches is stamped.
  unfoldable pub use_code : (user_id code : ℕ) → List RecoveryCode → Bool × List RecoveryCode
  use_code user_id code [] = (false, [])
  use_code user_id code (row ∷ rows) =
      let (found, rest) = use_code user_id code rows in
      if is_open user_id row && crypto.verify_recovery_code code row.code_hash
      then (true, record row { is_used = true } ∷ rows)
      else (found, row ∷ rest)

  unfoldable pub consume_recovery_code : (user_id code : ℕ) → Store → Bool × Store
  consume_recovery_code user_id code st =
      let (found, rows) = use_code user_id code st.recovery_codes in
      (found, record st { recovery_codes = rows })

-- `countRemainingRecoveryCodes`, of a table.
unfoldable pub count_open : ℕ → List RecoveryCode → ℕ
count_open user_id rows = length (keep (is_open user_id) rows)

unfoldable pub count_remaining_recovery_codes : ℕ → Store → ℕ
count_remaining_recovery_codes user_id st = count_open user_id st.recovery_codes
