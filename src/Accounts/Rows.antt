-- ===== src/Accounts/Rows.antt =====
-- src/services/data_service.js: what the session operations do to the rows of the sessions table.
use virgo_fleet.Base.{
  ℕ, ◌≡◌, refl, Bool, true, false, not, ◌||◌, List, [], ◌∷◌, ◌++◌, arith, ◌==◌, if_keeps, any, keep,
  has,
}
use virgo_fleet.Accounts.State.{
  Session, Effect, sessions_updated, sessions_revoked, Store, emit, emit_sessions_updated,
  emit_sessions_revoked, ids_of, destroy_sessions,
}

pub any-append {ℓ} :
    {A : Type ℓ} (p : A → Bool) (xs ys : List A) → any p (xs ++ ys) ≡ (any p xs || any p ys)
any-append p [] ys = refl
any-append p (x ∷ xs) ys = ground (arith, any-append p xs ys)

-- What is left of a list satisfies no more than the list.
pub any-keep {ℓ} :
    {A : Type ℓ} (p q : A → Bool) (xs : List A) → any p (keep q xs) ≡ true → any p xs ≡ true
any-keep p q [] h = h
any-keep p q (x ∷ xs) h = ground (arith, any-keep p q xs)

pub updated_sessions : (u : ℕ) (st : Store) → (emit_sessions_updated u st).sessions ≡ st.sessions
unfolding emit_sessions_updated emit
updated_sessions u st =
    if_keeps (λ (t : Store). t.sessions ≡ st.sessions) (u == 0) _ _ (λ _. refl) (λ _. refl)

pub revoked_sessions :
    (ids : List ℕ) (st : Store) → (emit_sessions_revoked ids st).sessions ≡ st.sessions
unfolding emit_sessions_revoked emit
revoked_sessions [] st = refl
revoked_sessions (x ∷ ids) st = refl

pub destroy_sessions-sessions :
    (test : Session → Bool) (st : Store)
    → (destroy_sessions test st).sessions ≡ keep (λ s. not (test s)) st.sessions
unfolding destroy_sessions
destroy_sessions-sessions test st = revoked_sessions (ids_of (keep test st.sessions)) _

-- The session was reported as revoked.
abbrev pub reports : ℕ → Effect → Bool
reports id (sessions_updated u) = false
reports id (sessions_revoked ids) = has ids id

unfoldable pub reported : ℕ → List Effect → Bool
reported id out = any (reports id) out

pub emit-reported :
    (id : ℕ) (e : Effect) (st : Store)
    → reported id (emit e st).out ≡ (reported id st.out || reports id e)
unfolding reported emit
emit-reported id e st = rw (any-append (reports id) st.out (e ∷ [])) (ground arith)

pub updated_reported :
    (id u : ℕ) (st : Store)
    → reported id st.out ≡ true
    → reported id (emit_sessions_updated u st).out ≡ true
unfolding emit_sessions_updated
updated_reported id u st h =
    if_keeps (λ (t : Store). reported id t.out ≡ true) (u == 0) _ _ (λ _. h)
      (λ _. rw (emit-reported id (sessions_updated u) st) (ground arith))

pub revoked_reported :
    (id : ℕ) (ids : List ℕ) (st : Store)
    → (has ids id || reported id st.out) ≡ true
    → reported id (emit_sessions_revoked ids st).out ≡ true
unfolding emit_sessions_revoked
revoked_reported id [] st h = h
revoked_reported id (x ∷ ids) st h =
    rw (emit-reported id (sessions_revoked (x ∷ ids)) st) (ground arith)
