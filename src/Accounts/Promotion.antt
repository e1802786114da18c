-- ===== src/Accounts/Promotion.antt =====
-- src/services/data_service.js: where an account comes from.
use virgo_fleet.Base.{
  ℕ, ◌≡◌, refl, sym, ap, ◌∙◌, ◌⊎◌, inl, inr, Bool, true, false, ◌&&◌, List, [], ◌∷◌, ◌++◌, arith,
  ◌==◌, ltb, if_keeps, Option_keeps, some, first, keep, is_some, Bool-cases,
}
use virgo_fleet.Accounts.State.{
  Store, Crypto, setup_required, get_user_by_email, emit_sessions_updated, emit_sessions_revoked,
  emit, destroy_sessions, ids_of,
}
use virgo_fleet.Accounts.Sessions.{create_session, is_stale, new_session, with_session}
use virgo_fleet.Accounts.Signup.{
  PendingUser, Signups, Outcome, new_user, with_user, store_pending_user, delete_pending_user,
  promote, find_pending_user, link_opened, SignupEvent, stored, mail_failed, confirmed, signup_step,
}

updated_users : (u : ℕ) (st : Store) → (emit_sessions_updated u st).users ≡ st.users
unfolding emit_sessions_updated emit
updated_users u st =
    if_keeps (λ (t : Store). t.users ≡ st.users) (u == 0) _ _ (λ _. refl) (λ _. refl)

revoked_users : (ids : List ℕ) (st : Store) → (emit_sessions_revoked ids st).users ≡ st.users
unfolding emit_sessions_revoked emit
revoked_users [] st = refl
revoked_users (x ∷ ids) st = refl

create_session-users :
    (now id token u : ℕ) (st : Store)
    → (create_session now id token u setup_required st).users ≡ st.users
unfolding create_session destroy_sessions
create_session-users now id token u st =
    updated_users u (
      with_session (new_session now id token u setup_required)
        (destroy_sessions (is_stale now u) st))
    ∙ revoked_users (ids_of (keep (is_stale now u) st.sessions)) _

-- The rows hold a pending account between two parts of them.
pub record Holds (p : PendingUser) (rows : List PendingUser) : Type 0 where
  pub earlier : List PendingUser
  pub later : List PendingUser
  pub split : rows ≡ earlier ++ p ∷ later

first-Holds :
    (q : PendingUser → Bool) (p : PendingUser) (rows : List PendingUser)
    → first q rows ≡ some p
    → Holds p rows × (q p ≡ true)
first-Holds q p [] h = cc h
first-Holds q p (r ∷ rows) h = elim (Bool-cases (q r)) [
  | inl e ↦
      let own : r ≡ p = ground (arith, e, h) in
      (record { earlier = []; later = rows; split = ap (λ x. x ∷ rows) own }, ap q (sym own) ∙ e)
  | inr e ↦
      let (s, f) = first-Holds q p rows (ground (arith, e, h)) in
      (record { earlier = r ∷ s.earlier; later = s.later; split = ap (λ l. r ∷ l) s.split }, f)
]

-- A link is opened: its token is that of a pending account that has not run out.
pub record IsOpened (now token : ℕ) (st st' : Signups) : Type 0 where
  pub row : PendingUser
  pub is_pending : Holds row st.pending
  pub shown : (row.verification_token == token) ≡ true
  pub is_live : ltb now row.expires_at ≡ true
  pub is_given : (token == 0) ≡ false
  pub kept : st'.accounts.users ≡ st.accounts.users
  pub noted : st'.found ≡ row ∷ st.found

-- An opened link is confirmed: no account has the email of its pending account, and the new account is
-- that pending account's.
pub record IsConfirmed (user_id token : ℕ) (st st' : Signups) : Type 0 where
  pub row : PendingUser
  pub was_found : Holds row st.found
  pub shown : (row.verification_token == token) ≡ true
  pub is_free : is_some (get_user_by_email row.email st.accounts) ≡ false
  pub created : st'.accounts.users ≡ st.accounts.users ++ new_user user_id row ∷ []
  pub kept : st'.found ≡ st.found

-- Neither the accounts nor the opened links change.
abbrev pub IsIdle : Signups → Signups → Type 0
IsIdle st st' = (st'.accounts.users ≡ st.accounts.users) × (st'.found ≡ st.found)

module _ (crypto : Crypto) where
  abbrev pub Confirms : SignupEvent crypto → Signups → Signups → Type 0
  Confirms (link_opened now token) st st' = IsOpened now token st st'
  Confirms (confirmed now user_id session_id session_token token) st st' =
      IsConfirmed user_id token st st'
  Confirms _ st st' = ⊥

  find_pending_user-Holds :
      (now token : ℕ) (p : PendingUser) (st : Signups)
      → find_pending_user crypto now token st ≡ some p
      → Holds p st.pending
        × ((token == 0) ≡ false)
        × (((p.verification_token == token) && ltb now p.expires_at) ≡ true)
  unfolding find_pending_user
  find_pending_user-Holds now token p st h = elim (Bool-cases (token == 0)) [
    | inl e ↦ ground (arith, e, h)
    | inr e ↦
        let (row, q) =
          first-Holds (λ p. (p.verification_token == token) && ltb now p.expires_at) p st.pending
            (ground (arith, e, h)) in
        (row, e, q)
  ]

  -- The accounts change in no other way than by one new account, at the confirmation of an opened link:
  -- no account has its email then, and the new account has the email and the password hash of the
  -- pending account that was found. A link is opened only by the token of a pending account that has
  -- not run out. Sign-ups, failed mails and other confirmations may come at any time in between.
  pub signup_step-Confirms :
      (event : SignupEvent crypto) (st : Signups)
      → IsIdle st (signup_step crypto event st) ⊎ Confirms event st (signup_step crypto event st)
  unfolding signup_step store_pending_user delete_pending_user promote
  signup_step-Confirms (stored now token email name password) st = inl (refl, refl)
  signup_step-Confirms (mail_failed email) st =
      inl (if_keeps (IsIdle st) (email == 0) _ _ (λ _. (refl, refl)) (λ _. (refl, refl)))
  signup_step-Confirms (link_opened now token) st =
      Option_keeps (λ st'. IsIdle st st' ⊎ IsOpened now token st st')
        (find_pending_user crypto now token st) _ _ (λ _. inl (refl, refl))
        λ p h.
          let (row, given, q) = find_pending_user-Holds now token p st h in
          inr (record {
            row = p;
            is_pending = row;
            shown = ground (arith, q);
            is_live = ground (arith, q);
            is_given = given;
            kept = refl;
            noted = refl;
          })
  signup_step-Confirms (confirmed now user_id session_id session_token token) st =
      Option_keeps Grown (first (λ p. p.verification_token == token) st.found) _ _
        (λ _. inl (refl, refl))
        λ p h.
          if_keeps (λ (o : Outcome). Grown o.0) (is_some (get_user_by_email p.email st.accounts)) _
            _ (λ _. inl (refl, refl))
            λ free.
              let (row, q) = first-Holds (λ p. p.verification_token == token) p st.found h in
              inr (record {
                row = p;
                was_found = row;
                shown = q;
                is_free = free;
                created =
                    create_session-users now session_id session_token user_id
                      (with_user (new_user user_id p) st.accounts);
                kept = refl;
              })
    where
      Grown : Signups → Type 0
      Grown st' = IsIdle st st' ⊎ IsConfirmed user_id token st st'
