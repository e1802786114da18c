-- ===== src/SessionSockets.antt =====
-- src/utils/session_sockets.js: live sockets by the session that authenticated them, and the listener
-- of src/modules/user/sessions.js that the sweep's event runs. Sockets and sessions are numbers, 0 is
-- no session; the time of a call is an argument.
pub mod Soundness
pub mod Revocation
pub mod Tests
use virgo_fleet.Base.{
  ℕ, ◌+◌, ◌*◌, Bool, true, false, not, ◌&&◌, List, [], ◌∷◌, ◌++◌, Option, none, some, leb, ltb,
  ◌==◌, if◌then◌else◌, is_some, keep, each, has, add, delete, lookup, insert, erase, members, map,
  length,
}

pub data Effect : Type 0 where
  closed : (socket : ℕ) → Effect
  connection : (session_id user_id : ℕ) → (is_connected : Bool) → Effect

-- `owner` holds `socket.sessionId`; a socket listens once `track` has set its 'disconnect' handler.
pub record Registry : Type 0 where
  pub sockets_by_session : List (ℕ × List ℕ)
  pub expires_at : List (ℕ × ℕ)
  pub revoked_at : List (ℕ × ℕ)
  pub owner : List (ℕ × ℕ)
  pub listening : List ℕ
  pub sweeping : Bool
  pub out : List Effect

abbrev pub revoked_retention_ms : ℕ
revoked_retention_ms = 5 * 60 * 1000

abbrev pub start : Registry
start = record {
  sockets_by_session = [];
  expires_at = [];
  revoked_at = [];
  owner = [];
  listening = [];
  sweeping = false;
  out = [];
}

abbrev pub emit : Effect → Registry → Registry
emit e st = record st { out = st.out ++ e ∷ [] }

-- What the sockets were given when they connected.
module _ (user_of : ℕ → ℕ) where
  unfoldable pub forget : ℕ → Registry → Registry
  forget session st = record st {
    sockets_by_session = erase session st.sockets_by_session;
    expires_at = erase session st.expires_at;
  }

  -- What is left of the session's set after `tracked.delete(socket)`.
  unfoldable pub leave : ℕ → ℕ → List ℕ → Registry → Registry
  leave session socket [] st = emit (connection session (user_of socket) false) (forget session st)
  leave session socket (s ∷ rest) st = record st {
    sockets_by_session = insert session (s ∷ rest) st.sockets_by_session;
  }

  unfoldable pub untrack_from : ℕ → Registry → Option ℕ → Registry
  untrack_from socket st none = st
  untrack_from socket st (some session) = elim (lookup session st.sockets_by_session) [
    | none ↦ st
    | some tracked ↦ leave session socket (delete socket tracked) st
  ]

  unfoldable pub untrack : ℕ → Registry → Registry
  untrack socket st = untrack_from socket st (lookup socket st.owner)

  unfoldable pub is_connected : ℕ → Registry → Bool
  is_connected session st = is_some (lookup session st.sockets_by_session)

  -- `close`: both ways of it end the connection.
  unfoldable pub close : ℕ → Registry → Registry
  close socket st = emit (closed socket) st

  unfoldable pub enter : ℕ → ℕ → List ℕ → Registry → Registry
  enter socket session sockets st =
      let entered = record st {
        sockets_by_session = insert session (add socket sockets) st.sockets_by_session;
        listening = add socket st.listening;
        sweeping = true;
      } in
      if length (add socket sockets) == 1
      then emit (connection session (user_of socket) true) entered
      else entered

  abbrev pub expire : ℕ → ℕ → Registry → Registry
  expire session expires_at st =
      if expires_at == 0
      then st
      else record st { expires_at = insert session expires_at st.expires_at }

  unfoldable pub own : ℕ → ℕ → Registry → Registry
  own socket session st = record st { owner = insert socket session st.owner }

  unfoldable pub track : (socket session expires_at : ℕ) → Registry → Registry
  track socket session expires_at st =
      if session == 0
      then st
      else if is_some (lookup session st.revoked_at)
      then close socket (own socket session st)
      else expire session expires_at
          (enter socket session (members session st.sockets_by_session) (own socket session st))

  unfoldable pub revoke : ℕ → ℕ → Registry → Registry
  revoke now session st = record st { revoked_at = insert session now st.revoked_at }

  -- One round of `disconnectSessions`: the sockets are taken before the session is forgotten.
  unfoldable pub disconnect_session : ℕ → ℕ → Registry → Registry
  disconnect_session now session st =
      each close (members session st.sockets_by_session) (forget session (revoke now session st))

  unfoldable pub disconnect_sessions : ℕ → List ℕ → Registry → Registry
  disconnect_sessions now sessions st = record (each (disconnect_session now) sessions st) {
    sweeping = true;
  }

  unfoldable pub untrack_dead : (ℕ → Bool) → ℕ → Registry → Registry
  untrack_dead is_live socket st = if is_live socket then st else untrack socket st

  unfoldable pub untrack_dead_of : (ℕ → Bool) → ℕ × List ℕ → Registry → Registry
  untrack_dead_of is_live (session, sockets) st = each (untrack_dead is_live) sockets st

  -- Sessions whose time has come.
  unfoldable pub expired : ℕ → List (ℕ × ℕ) → List ℕ
  expired now expires_at = map (λ e. e.0) (keep (λ e. leb e.1 now) expires_at)

  unfoldable pub drop_old : ℕ → Registry → Registry
  drop_old now st = record st {
    revoked_at = keep (λ r. not (ltb (r.1 + revoked_retention_ms) now)) st.revoked_at;
  }

  -- `if (expired.length) { eventEmitter.emit('sessions:revoked', …) }`
  unfoldable pub end_expired : ℕ → List ℕ → Registry → Registry
  end_expired now [] st = st
  end_expired now (s ∷ ss) st = disconnect_sessions now (s ∷ ss) st

  -- `sweep`. `is_live` tells whether a socket is connected or its transport open. The listener of
  -- 'sessions:revoked' disconnects the expired sessions.
  unfoldable pub sweep : ℕ → (ℕ → Bool) → Registry → Registry
  sweep now is_live st =
      let fresh = drop_old now st in
      let swept = each (untrack_dead_of is_live) fresh.sockets_by_session fresh in
      end_expired now (expired now swept.expires_at) swept

  pub data Event : Type 0 where
    tracked : (socket session expires_at : ℕ) → Event
    disconnected : (socket : ℕ) → Event
    sessions_revoked : (now : ℕ) → (sessions : List ℕ) → Event
    swept : (now : ℕ) → (is_live : ℕ → Bool) → Event

  -- A socket's 'disconnect' reaches `untrack` where `track` set a handler; the timer sweeps once it
  -- has been started.
  unfoldable pub step : Event → Registry → Registry
  step (tracked socket session expires_at) st = track socket session expires_at st
  step (disconnected socket) st = if has st.listening socket then untrack socket st else st
  step (sessions_revoked now sessions) st = disconnect_sessions now sessions st
  step (swept now is_live) st = if st.sweeping then sweep now is_live st else st
