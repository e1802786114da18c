-- ===== src/SessionSockets/Revocation.antt =====
-- src/utils/session_sockets.js, `disconnectSessions`: what ends with a session.
use virgo_fleet.Base.{
  ℕ, ◌≡◌, refl, ap, ◌∙◌, Bool, true, false, ◌||◌, List, [], ◌∷◌, ◌++◌, arith, ◌==◌, ==_iff,
  if◌then◌else◌, is_some, any, each, each_inv, has, Option, none, some, Bool-cases, inl, inr,
  lookup, members,
}
use virgo_fleet.SessionSockets.{
  Effect, closed, connection, Registry, close, disconnect_session, disconnect_sessions,
  is_connected, forget, revoke,
}
use virgo_fleet.SessionSockets.Soundness.{disconnect_session_maps}

abbrev pub closes : ℕ → Effect → Bool
closes socket (closed x) = x == socket
closes socket (connection s u c) = false

unfoldable pub was_closed : ℕ → List Effect → Bool
was_closed socket out = any (closes socket) out

was_closed-append :
    (x : ℕ) (out : List Effect) (e : Effect)
    → was_closed x (out ++ e ∷ []) ≡ (was_closed x out || closes x e)
unfolding was_closed
was_closed-append x [] e = ground arith
was_closed-append x (f ∷ out) e = ground (arith, was_closed-append x out e)

module _ (user_of : ℕ → ℕ) where
  closed_all :
      (x : ℕ) (xs : List ℕ) (st : Registry)
      → (has xs x || was_closed x st.out) ≡ true
      → was_closed x (each (close user_of) xs st).out ≡ true
  unfolding each close
  closed_all x [] st h = ground arith
  closed_all x (y ∷ ys) st h =
      closed_all x ys (close user_of y st)
        (rw (was_closed-append x st.out (closed y)) (ground arith))

  session_closes :
      (now session x : ℕ) (st : Registry)
      → (has (members session st.sockets_by_session) x || was_closed x st.out) ≡ true
      → was_closed x (disconnect_session user_of now session st).out ≡ true
  unfolding disconnect_session forget revoke
  session_closes now session x st h =
      closed_all x (members session st.sockets_by_session)
        (forget user_of session (revoke user_of now session st)) h

  -- Gone, and its sockets closed.
  abbrev IsEnded : ℕ → ℕ → Registry → Type 0
  IsEnded s x st = (is_some (lookup s st.sockets_by_session) ≡ false) × (was_closed x st.out ≡ true)

  -- What is left of the round on another session.
  other :
      (now y s x : ℕ) (st : Registry)
      → (y == s) ≡ false
      → has (members s st.sockets_by_session) x ≡ true
      → has (members s (disconnect_session user_of now y st).sockets_by_session) x ≡ true
  other now y s x st e h =
      let kept : lookup s (disconnect_session user_of now y st).sockets_by_session
          ≡ lookup s st.sockets_by_session =
        (disconnect_session_maps user_of now y s st).1
        ∙ ap (λ b. if b then none else lookup s st.sockets_by_session) e in
      ap (λ (o : Option (List ℕ)). has (elim o [ none ↦ [] | some l ↦ l ]) x) kept ∙ h

  ended :
      (now s x : ℕ) (ss : List ℕ) (st : Registry)
      → IsEnded s x st
      → IsEnded s x (each (disconnect_session user_of now) ss st)
  ended now s x ss st =
      each_inv (IsEnded s x) (disconnect_session user_of now)
        (λ y t (a, b). (
          rw (disconnect_session_maps user_of now y s t).1 (ground arith),
          session_closes now y x t (ground arith),
        ))
        ss st

  rounds :
      (now s x : ℕ) (ss : List ℕ) (st : Registry)
      → has ss s ≡ true
      → has (members s st.sockets_by_session) x ≡ true
      → IsEnded s x (each (disconnect_session user_of now) ss st)
  unfolding each
  rounds now s x [] st i h = ground arith
  rounds now s x (y ∷ ss) st i h = elim (Bool-cases (y == s)) [
    | inl e ↦ ended now s x ss (disconnect_session user_of now y st) (
      rw ((disconnect_session_maps user_of now y s st).1, e) refl,
      session_closes now y x st (ground (arith, here y ((==_iff y s).0 e))),
    )
    | inr e ↦
        rounds now s x ss (disconnect_session user_of now y st) (ground arith)
          (other now y s x st e h)
  ]
    where
      here : (y : ℕ) → y ≡ s → has (members y st.sockets_by_session) x ≡ true
      here y e = rw e h

  -- Every socket of a session that is disconnected is closed, and the session has no socket left.
  pub disconnect_sessions_lem :
      (now s x : ℕ) (ss : List ℕ) (st : Registry)
      → has ss s ≡ true
      → has (members s st.sockets_by_session) x ≡ true
      → (is_connected user_of s (disconnect_sessions user_of now ss st) ≡ false)
        × (was_closed x (disconnect_sessions user_of now ss st).out ≡ true)
  unfolding disconnect_sessions is_connected
  disconnect_sessions_lem now s x ss st i h = rounds now s x ss st i h
