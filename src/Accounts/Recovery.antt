-- ===== src/Accounts/Recovery.antt =====
-- src/services/data_service.js, `consumeRecoveryCode` and `changePassword`.
use virgo_fleet.Base.{
  ℕ, ◌≡◌, refl, sym, ap, ◌∙◌, Bool, true, false, not, ◌&&◌, List, [], ◌∷◌, ◌++◌, ◌⊎◌, inl, inr,
  Bool-cases, arith, ◌==◌, any, keep, some,
}
use virgo_fleet.Accounts.State.{
  User, Session, RecoveryCode, Store, Crypto, get_user_by_email, save_user, destroy_sessions,
  emit_sessions_updated,
}
use virgo_fleet.Accounts.Sessions.{returns, change_password}
use virgo_fleet.Accounts.Totp.{is_open, use_code, consume_recovery_code}
use virgo_fleet.Accounts.Rows.{updated_sessions, destroy_sessions-sessions}

module _ (crypto : Crypto) where
  -- The row is unused, is the user's, and holds the hash of the code.
  abbrev pub matches : ℕ → ℕ → RecoveryCode → Bool
  matches u code row = is_open u row && crypto.verify_recovery_code code row.code_hash

  -- The rows before and after a code passed: the first that matches is stamped, the others are kept.
  pub record Spent (u code : ℕ) (rows rows' : List RecoveryCode) : Type 0 where
    pub earlier : List RecoveryCode
    pub row : RecoveryCode
    pub later : List RecoveryCode
    pub before : rows ≡ earlier ++ row ∷ later
    pub passes : matches u code row ≡ true
    pub is_first : any (matches u code) earlier ≡ false
    pub after : rows' ≡ earlier ++ record row { is_used = true } ∷ later

  abbrev pub IsConsumed : ℕ → ℕ → List RecoveryCode → Bool × List RecoveryCode → Type 0
  IsConsumed u code rows result =
      ((result.0 ≡ true) × Spent u code rows result.1)
      ⊎ ((result.0 ≡ false) × (any (matches u code) rows ≡ false) × (result.1 ≡ rows))

  passed_over :
      (u code : ℕ) (row : RecoveryCode) (rows : List RecoveryCode)
      → matches u code row ≡ false
      → any (matches u code) rows ≡ false
      → any (matches u code) (row ∷ rows) ≡ false
  passed_over u code row rows e f = rw e f

  use_code-IsConsumed :
      (u code : ℕ) (rows : List RecoveryCode) → IsConsumed u code rows (use_code crypto u code rows)
  unfolding use_code
  use_code-IsConsumed u code [] = inr (refl, refl, refl)
  use_code-IsConsumed u code (row ∷ rows) = elim (Bool-cases (matches u code row)) [
    | inl e ↦ rw e (
        inl (
          refl,
          record {
            earlier = [];
            row = row;
            later = rows;
            before = refl;
            passes = e;
            is_first = refl;
            after = refl;
          },
        ))
    | inr e ↦ rw e (elim (use_code-IsConsumed u code rows) [
      | inl (found, s) ↦ inl (
        found,
        record {
          earlier = row ∷ s.earlier;
          row = s.row;
          later = s.later;
          before = ap (λ l. row ∷ l) s.before;
          passes = s.passes;
          is_first = passed_over u code row s.earlier e s.is_first;
          after = ap (λ l. row ∷ l) s.after;
        },
      )
      | inr (found, nowhere, kept) ↦ inr (found, nowhere, ap (λ l. row ∷ l) kept)
    ])
  ]

  -- A recovery code passes exactly where an unused row of the user holds its hash. The first such row
  -- is stamped then and every other row is kept; where it does not pass, all rows are kept. Nothing
  -- else of the store changes.
  pub consume_recovery_code-IsConsumed :
      (u code : ℕ) (st : Store)
      → IsConsumed u code st.recovery_codes (
        (consume_recovery_code crypto u code st).0,
        (consume_recovery_code crypto u code st).1.recovery_codes,
      )
        × ((consume_recovery_code crypto u code st).1 ≡ record st {
          recovery_codes = (consume_recovery_code crypto u code st).1.recovery_codes;
        })
  unfolding consume_recovery_code
  consume_recovery_code-IsConsumed u code st = (use_code-IsConsumed u code st.recovery_codes, refl)

returns_inj {ℓ} : {A : Type ℓ} (a b : A) → returns a ≡ returns b → a ≡ b
returns_inj a b h = cc

abbrev pub has_session_of : ℕ → Store → Bool
has_session_of u st = any (λ s. s.user_id == u) st.sessions

none_of :
    (u : ℕ) (l : List Session)
    → any (λ s. s.user_id == u) (keep (λ s. not (s.user_id == u)) l) ≡ false
none_of u [] = refl
none_of u (s ∷ l) = ground (arith, none_of u l)

-- A password change that does not fail leaves the account no session, on any device.
pub change_password_lem :
    (crypto : Crypto) (email password : ℕ) (u : User) (st st' : Store)
    → get_user_by_email email st ≡ some u
    → change_password crypto email password st ≡ returns st'
    → has_session_of u.id st' ≡ false
unfolding change_password
change_password_lem crypto email password u st st' e =
    rw (change_password, e) λ h. sym (ap (has_session_of u.id) (returns_inj _ st' h)) ∙ gone
  where
    saved : Store
    saved = save_user (record u { password_hash = crypto.hash_password password }) st

    gone :
        has_session_of u.id
          (emit_sessions_updated u.id (destroy_sessions (λ s. s.user_id == u.id) saved))
        ≡ false
    gone =
        ap (any (λ s. s.user_id == u.id)) (
          updated_sessions u.id (destroy_sessions (λ s. s.user_id == u.id) saved)
          ∙ destroy_sessions-sessions (λ s. s.user_id == u.id) saved)
        ∙ none_of u.id saved.sessions
