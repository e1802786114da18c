-- ===== src/SessionSockets/Soundness.antt =====
-- src/utils/session_sockets.js: a revoked session has no live socket.
use virgo_fleet.Base.{
  ℕ, ◌≡◌, refl, sym, ap, ◌∙◌, ◌+◌, ltb, length, add, members, Bool, true, false, not, List, [], ◌∷◌,
  arith, ◌==◌, ==_iff, if◌then◌else◌, if_keeps, Option_keeps, is_some, each, each_inv, has, none,
  some, Bool-cases, Option-cases, inl, inr, lookup, insert, lookup-insert, lookup-erase, keep,
}
use virgo_fleet.SessionSockets.{
  Registry, forget, leave, untrack_from, untrack, close, enter, own, expire, track, revoke,
  disconnect_session, disconnect_sessions, untrack_dead, untrack_dead_of, drop_old, sweep, expired,
  end_expired, Event, step, tracked, disconnected, sessions_revoked, swept, revoked_retention_ms,
}

-- No session is both revoked and tracked.
abbrev pub IsExclusive : Registry → Type 0
IsExclusive st =
    (s : ℕ)
    → is_some (lookup s st.revoked_at) ≡ true
    → is_some (lookup s st.sockets_by_session) ≡ false

is_tracked : ℕ → Registry → Bool
is_tracked s st = is_some (lookup s st.sockets_by_session)

-- Nothing is revoked or restored, and nothing begins to be tracked.
abbrev IsSmaller : Registry → Registry → Type 0
IsSmaller st st' =
    (st'.revoked_at ≡ st.revoked_at)
    × ((s : ℕ)
        → is_some (lookup s st'.sockets_by_session) ≡ true
        → is_some (lookup s st.sockets_by_session) ≡ true)

smaller-IsExclusive : (st st' : Registry) → IsSmaller st st' → IsExclusive st → IsExclusive st'
smaller-IsExclusive st st' (e, f) h s r =
    elim (Bool-cases (is_some (lookup s st'.sockets_by_session))) [
      | inl t ↦ ground (arith, f s, h s, ap (λ m. is_some (lookup s m)) e)
      | inr t ↦ t
    ]

module _ (user_of : ℕ → ℕ) where
  leave-IsSmaller :
      (session socket : ℕ) (rest : List ℕ) (st : Registry)
      → is_some (lookup session st.sockets_by_session) ≡ true
      → IsSmaller st (leave user_of session socket rest st)
  unfolding leave forget
  leave-IsSmaller session socket [] st h =
      (refl, λ s t. ground (arith, lookup-erase session s st.sockets_by_session))
  leave-IsSmaller session socket (x ∷ rest) st h = (refl, λ s t. kept s t)
    where
      kept :
          (s : ℕ)
          → is_some (lookup s (insert session (x ∷ rest) st.sockets_by_session)) ≡ true
          → is_some (lookup s st.sockets_by_session) ≡ true
      kept s t = elim (Bool-cases (session == s)) [
        | inl e ↦ rw (sym ((==_iff session s).0 e)) h
        | inr e ↦ ground (arith, lookup-insert session s (x ∷ rest) st.sockets_by_session)
      ]

  untrack-IsSmaller : (socket : ℕ) (st : Registry) → IsSmaller st (untrack user_of socket st)
  unfolding untrack untrack_from
  untrack-IsSmaller socket st = elim (Option-cases (lookup socket st.owner)) [
    | inl e ↦ rw (e, untrack_from) (refl, λ s t. t)
    | inr (session, e) ↦
        rw (e, untrack_from)
          (Option_keeps (IsSmaller st) (lookup session st.sockets_by_session) _ _
            (λ _. (refl, λ s t. t)) λ l f. leave-IsSmaller session socket _ st (rw f refl))
  ]

  untrack-IsExclusive :
      (socket : ℕ) (st : Registry) → IsExclusive st → IsExclusive (untrack user_of socket st)
  untrack-IsExclusive socket st =
      smaller-IsExclusive st (untrack user_of socket st) (untrack-IsSmaller socket st)

  -- Closing sockets changes no map.
  closing :
      (xs : List ℕ) (st : Registry)
      → ((each (close user_of) xs st).revoked_at ≡ st.revoked_at)
        × ((each (close user_of) xs st).sockets_by_session ≡ st.sockets_by_session)
  unfolding close
  closing xs st =
      each_inv
        (λ t. (t.revoked_at ≡ st.revoked_at) × (t.sockets_by_session ≡ st.sockets_by_session))
        (close user_of) (λ x t h. h) xs st (refl, refl)

  pub disconnect_session_maps :
      (now session s : ℕ) (st : Registry)
      → (lookup s (disconnect_session user_of now session st).revoked_at
          ≡ (if session == s then some now else lookup s st.revoked_at))
        × (lookup s (disconnect_session user_of now session st).sockets_by_session
            ≡ (if session == s then none else lookup s st.sockets_by_session))
  unfolding disconnect_session revoke forget
  disconnect_session_maps now session s st =
      let (revoked, tracked_now) =
        closing (members session st.sockets_by_session)
          (forget user_of session (revoke user_of now session st)) in
      (
        ap (lookup s) revoked ∙ lookup-insert session s now st.revoked_at,
        ap (lookup s) tracked_now ∙ lookup-erase session s st.sockets_by_session,
      )

  disconnect_session-IsExclusive :
      (now session : ℕ) (st : Registry)
      → IsExclusive st
      → IsExclusive (disconnect_session user_of now session st)
  disconnect_session-IsExclusive now session st h s =
      let (e, f) = disconnect_session_maps now session s st in rw (e, f) (ground (arith, h s))

  disconnect_sessions-IsExclusive :
      (now : ℕ) (ss : List ℕ) (st : Registry)
      → IsExclusive st
      → IsExclusive (disconnect_sessions user_of now ss st)
  unfolding disconnect_sessions
  disconnect_sessions-IsExclusive now ss st h =
      each_inv IsExclusive (disconnect_session user_of now)
        (λ x t. disconnect_session-IsExclusive now x t) ss st h

  enter-IsExclusive :
      (socket session : ℕ) (l : List ℕ) (st : Registry)
      → is_some (lookup session st.revoked_at) ≡ false
      → IsExclusive st
      → IsExclusive (enter user_of socket session l st)
  unfolding enter
  enter-IsExclusive socket session l st r h =
      if_keeps IsExclusive (length (add socket l) == 1) _ _ (λ _. kept (add socket l))
        (λ _. kept (add socket l))
    where
      kept :
          (v : List ℕ) (s : ℕ)
          → is_some (lookup s st.revoked_at) ≡ true
          → is_some (lookup s (insert session v st.sockets_by_session)) ≡ false
      kept v s t = elim (Bool-cases (session == s)) [
        | inl e ↦
            ground (arith, ap (λ k. is_some (lookup k st.revoked_at)) ((==_iff session s).0 e))
        | inr e ↦ ground (arith, lookup-insert session s v st.sockets_by_session, h s)
      ]

  expire-IsExclusive :
      (session e : ℕ) (st : Registry) → IsExclusive st → IsExclusive (expire user_of session e st)
  expire-IsExclusive session e st h = if_keeps IsExclusive (e == 0) _ _ (λ _. h) (λ _. h)

  track-IsExclusive :
      (socket session e : ℕ) (st : Registry)
      → IsExclusive st
      → IsExclusive (track user_of socket session e st)
  unfolding track own close
  track-IsExclusive socket session e st h =
      if_keeps IsExclusive (session == 0) _ _ (λ _. h)
        λ _.
          if_keeps IsExclusive (is_some (lookup session st.revoked_at)) _ _ (λ _. h)
            λ r.
              expire-IsExclusive session e
                (enter user_of socket session (members session st.sockets_by_session)
                  (own user_of socket session st))
                (enter-IsExclusive socket session (members session st.sockets_by_session)
                  (own user_of socket session st) r h)

  untrack_dead-IsExclusive :
      (live : ℕ → Bool) (socket : ℕ) (st : Registry)
      → IsExclusive st
      → IsExclusive (untrack_dead user_of live socket st)
  unfolding untrack_dead
  untrack_dead-IsExclusive live socket st h =
      if_keeps IsExclusive (live socket) _ _ (λ _. h) (λ _. untrack-IsExclusive socket st h)

  untrack_dead_of-IsExclusive :
      (live : ℕ → Bool) (entry : ℕ × List ℕ) (st : Registry)
      → IsExclusive st
      → IsExclusive (untrack_dead_of user_of live entry st)
  unfolding untrack_dead_of
  untrack_dead_of-IsExclusive live (session, sockets) st h =
      each_inv IsExclusive (untrack_dead user_of live) (untrack_dead-IsExclusive live) sockets st h

  drop_old-IsExclusive :
      (now : ℕ) (st : Registry) → IsExclusive st → IsExclusive (drop_old user_of now st)
  unfolding drop_old lookup
  drop_old-IsExclusive now st h s r = h s (still st.revoked_at r)
    where
      still :
          (m : List (ℕ × ℕ))
          → is_some (lookup s (keep (λ r. not (ltb (r.1 + revoked_retention_ms) now)) m)) ≡ true
          → is_some (lookup s m) ≡ true
      still [] r = ground arith
      still ((k, t) ∷ m) r = ground (arith, still m)

  end_expired-IsExclusive :
      (now : ℕ) (ss : List ℕ) (st : Registry)
      → IsExclusive st
      → IsExclusive (end_expired user_of now ss st)
  unfolding end_expired
  end_expired-IsExclusive now [] st h = h
  end_expired-IsExclusive now (s ∷ ss) st h = disconnect_sessions-IsExclusive now (s ∷ ss) st h

  sweep-IsExclusive :
      (now : ℕ) (live : ℕ → Bool) (st : Registry)
      → IsExclusive st
      → IsExclusive (sweep user_of now live st)
  unfolding sweep
  sweep-IsExclusive now live st h =
      end_expired-IsExclusive now (expired user_of now swept_registry.expires_at) swept_registry (
        each_inv IsExclusive (untrack_dead_of user_of live) (untrack_dead_of-IsExclusive live)
          fresh.sockets_by_session fresh (drop_old-IsExclusive now st h))
    where
      fresh : Registry
      fresh = drop_old user_of now st

      swept_registry : Registry
      swept_registry = each (untrack_dead_of user_of live) fresh.sockets_by_session fresh

  -- No event makes a revoked session live: a session that is remembered as revoked has no tracked
  -- socket, whatever is tracked, disconnected, revoked or swept.
  pub step-IsExclusive :
      (event : Event user_of) (st : Registry) → IsExclusive st → IsExclusive (step user_of event st)
  unfolding step
  step-IsExclusive (tracked socket session e) st h = track-IsExclusive socket session e st h
  step-IsExclusive (disconnected socket) st h =
      if_keeps IsExclusive (has st.listening socket) _ _ (λ _. untrack-IsExclusive socket st h)
        (λ _. h)
  step-IsExclusive (sessions_revoked now ss) st h = disconnect_sessions-IsExclusive now ss st h
  step-IsExclusive (swept now live) st h =
      if_keeps IsExclusive st.sweeping _ _ (λ _. sweep-IsExclusive now live st h) (λ _. h)
