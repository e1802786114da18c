-- ===== src/Accounts/Ceremonies.antt =====
-- src/services/data_service.js: a challenge is good for one attempt.
use virgo_fleet.Base.{
  ℕ, ◌≡◌, refl, sym, ap, Bool, true, false, not, ◌&&◌, ◌||◌, List, [], ◌∷◌, Option, none, some,
  arith, ◌==◌, ltb, if_keeps, Option_keeps, first, any, keep, is_some, Bool-cases, inl, inr,
}
use virgo_fleet.Accounts.State.{User, Store, find_user}
use virgo_fleet.Accounts.Passkeys.{
  CeremonyType, authentication, is_ceremony, Challenge, Credential, Passkeys, Outcome,
  consume_webauthn_challenge, assert_credential, complete_passkey_authentication,
}

-- Nothing is left under the id.
abbrev IsSpent : ℕ → Passkeys → Type 0
IsSpent id st = first (λ c. c.id == id) st.challenges ≡ none

none_left :
    (id : ℕ) (l : List Challenge) → first (λ c. c.id == id) (keep (λ c. not (c.id == id)) l) ≡ none
none_left id [] = refl
none_left id (c ∷ l) = ground (arith, none_left id l)

spent :
    (now id : ℕ) (t : CeremonyType) (st : Passkeys)
    → (id == 0) ≡ false
    → IsSpent id (consume_webauthn_challenge now id t st).0
unfolding consume_webauthn_challenge
spent now id t st z =
    if_keeps (λ (o : Passkeys × Option Challenge). IsSpent id o.0) (id == 0) _ _
      (λ e. ground (arith))
      λ _.
        Option_keeps (λ (o : Passkeys × Option Challenge). IsSpent id o.0)
          (first (λ c. c.id == id) st.challenges) _ _ (λ e. e) (λ row _. none_left id st.challenges)

refused :
    (now id : ℕ) (t : CeremonyType) (st : Passkeys)
    → IsSpent id st
    → (consume_webauthn_challenge now id t st).1 ≡ none
unfolding consume_webauthn_challenge
refused now id t st e =
    if_keeps (λ (o : Passkeys × Option Challenge). o.1 ≡ none) (id == 0) _ _ (λ _. refl)
      λ _.
        Option_keeps (λ (o : Passkeys × Option Challenge). o.1 ≡ none)
          (first (λ c. c.id == id) st.challenges) _ _ (λ _. refl) (λ row f. ground (arith))

-- An attempt to redeem a challenge spends it, whether or not it succeeds: no later attempt with
-- the same id does, at whatever time and for whatever ceremony.
pub consume_webauthn_challenge-twice :
    (now later id : ℕ) (t u : CeremonyType) (st : Passkeys)
    → (consume_webauthn_challenge later id u (consume_webauthn_challenge now id t st).0).1 ≡ none
unfolding consume_webauthn_challenge
consume_webauthn_challenge-twice now later id t u st = elim (Bool-cases (id == 0)) [
  | inl e ↦
      if_keeps (λ (o : Passkeys × Option Challenge). o.1 ≡ none) (id == 0) _ _ (λ _. refl)
        (λ f. ground (arith))
  | inr e ↦ refused later id u (consume_webauthn_challenge now id t st).0 (spent now id t st e)
]

-- What a redeemed challenge was.
abbrev pub IsLive : (now id : ℕ) → CeremonyType → Passkeys → Challenge → Type 0
IsLive now id t st row =
    (first (λ c. c.id == id) st.challenges ≡ some row)
    × (is_ceremony row.ceremony t ≡ true)
    × (ltb row.expires_at now ≡ false)

redeemed :
    (now id : ℕ) (t : CeremonyType) (st : Passkeys) (row : Challenge)
    → (consume_webauthn_challenge now id t st).1 ≡ some row
    → IsLive now id t st row
unfolding consume_webauthn_challenge
redeemed now id t st row =
    if_keeps (λ (o : Passkeys × Option Challenge). o.1 ≡ some row → IsLive now id t st row)
      (id == 0) _ _ (λ _ h. ground (arith))
      λ _.
        Option_keeps (λ (o : Passkeys × Option Challenge). o.1 ≡ some row → IsLive now id t st row)
          (first (λ c. c.id == id) st.challenges) _ _ (λ _ h. ground (arith))
          λ found e.
            if_keeps (λ (o : Option Challenge). o ≡ some row → IsLive now id t st row)
              (not (is_ceremony found.ceremony t) || ltb found.expires_at now) _ _
              (λ _ h. ground (arith))
              λ f (h : some found ≡ some row).
                let g : found ≡ row = cc in rw (sym g) (e, ground (arith), ground (arith))

-- The rows other than the challenges are left alone.
consumed_rest :
    (now id : ℕ) (t : CeremonyType) (st : Passkeys)
    → ((consume_webauthn_challenge now id t st).0.credentials ≡ st.credentials)
      × ((consume_webauthn_challenge now id t st).0.accounts ≡ st.accounts)
unfolding consume_webauthn_challenge
consumed_rest now id t st =
    if_keeps
      (λ (o : Passkeys × Option Challenge).
        (o.0.credentials ≡ st.credentials) × (o.0.accounts ≡ st.accounts))
      (id == 0) _ _ (λ _. (refl, refl))
      λ _.
        Option_keeps
          (λ (o : Passkeys × Option Challenge).
            (o.0.credentials ≡ st.credentials) × (o.0.accounts ≡ st.accounts))
          (first (λ c. c.id == id) st.challenges) _ _ (λ _. (refl, refl)) (λ _ _. (refl, refl))

-- The credential is enrolled, its user may sign in, and the library verified the assertion of the
-- challenge.
abbrev pub IsAsserted :
    (credential_id : ℕ)
    → (Challenge → Credential → Option ℕ)
    → Challenge
    → List Credential
    → Store
    → Type 0
IsAsserted id verify row credentials accounts =
    (c : Credential) × (first (λ d. d.credential_id == id) credentials ≡ some c)
    × (any (λ u. (u.id == c.user_id) && not u.is_disabled) accounts.users ≡ true)
    × (is_some (verify row c) ≡ true)

found_enabled :
    (id : ℕ) (u : User) (us : List User)
    → first (λ v. v.id == id) us ≡ some u
    → u.is_disabled ≡ false
    → any (λ v. (v.id == id) && not v.is_disabled) us ≡ true
found_enabled id u [] f d = ground arith
found_enabled id u (v ∷ us) f d = elim (Bool-cases (v.id == id)) [
  | inl e ↦ ground (arith, ap (λ (o : Option User). is_off o) f)
  | inr e ↦ ground (arith, found_enabled id u us)
]
  where
    is_off : Option User → Bool
    is_off none = false
    is_off (some w) = w.is_disabled

module _ (now session_id token id : ℕ) (verify : Challenge → Credential → Option ℕ) where
  AssertedBy : Passkeys → Challenge → Outcome → Type 0
  AssertedBy st row o = o.1 ≡ none → IsAsserted id verify row st.credentials st.accounts

  asserted :
      (st : Passkeys) (row : Challenge)
      → AssertedBy st row (assert_credential now session_id token id verify (st, some row))
  unfolding assert_credential AssertedBy
  asserted st row =
      Option_keeps (AssertedBy st row) (first (λ c. c.credential_id == id) st.credentials) _ _
        (λ _ h. ground (arith))
        λ c e.
          Option_keeps (AssertedBy st row) (find_user c.user_id st.accounts) _ _
            (λ _ h. ground (arith))
            λ u f.
              if_keeps (AssertedBy st row) u.is_disabled _ _ (λ _ h. ground (arith))
                λ d.
                  Option_keeps (AssertedBy st row) (verify row c) _ _ (λ _ h. ground (arith))
                    λ counter g h.
                      (c, e, found_enabled c.user_id u st.accounts.users f d, ap is_some g)

  IsAsserted-pair :
      (p : Passkeys × Option Challenge)
      → (assert_credential now session_id token id verify p).1 ≡ none
      → (row : Challenge) × (p.1 ≡ some row) × IsAsserted id verify row p.0.credentials p.0.accounts
  unfolding AssertedBy assert_credential
  IsAsserted-pair (s, none) h = ground (arith)
  IsAsserted-pair (s, some row) h = (row, refl, asserted s row h)

  moved :
      (row : Challenge) (k l : List Credential) (a b : Store)
      → k ≡ l
      → a ≡ b
      → IsAsserted id verify row k a
      → IsAsserted id verify row l b
  moved row k l a b e f h = rw (sym e, sym f) h

  -- A passkey sign-in that succeeds came with a challenge that this server issued for a sign-in, had
  -- not been redeemed and had not lapsed, with an enrolled credential of an account that is not
  -- disabled, and with an assertion that the library verified against that challenge.
  pub complete_passkey_authentication-IsAsserted :
      (challenge_id : ℕ) (st : Passkeys)
      → (complete_passkey_authentication now session_id token challenge_id id verify st).1 ≡ none
      → (row : Challenge) × IsLive now challenge_id authentication st row
        × IsAsserted id verify row st.credentials st.accounts
  unfolding complete_passkey_authentication
  complete_passkey_authentication-IsAsserted challenge_id st h =
      let (row, e, a) =
        IsAsserted-pair (consume_webauthn_challenge now challenge_id authentication st) h in
      let (c, d) = consumed_rest now challenge_id authentication st in
      (row, redeemed now challenge_id authentication st row e, moved row _ _ _ _ c d a)
