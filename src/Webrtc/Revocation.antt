-- ===== src/Webrtc/Revocation.antt =====
-- src/utils/webrtc_signal.js: which sessions the teardown functions end, and which they leave.
use virgo_fleet.Base.{
  ℕ, ◌≡◌, refl, ap, ◌∙◌, inl, inr, Bool, true, false, not, ◌&&◌, List, [], ◌∷◌, Option, none, some,
  arith, ◌==◌, same, if◌then◌else◌, each, has, lookup, members, Option-cases,
}
use virgo_fleet.Webrtc.Index.{held}
use virgo_fleet.Webrtc.State.{
  closes, node_offline, session_revoked, Session, is_connected, Sockets, Signal, emit,
}
use virgo_fleet.Webrtc.Sessions.{tell_session_node, refresh_orphan_state, both_online}
use virgo_fleet.Webrtc.ClientSide.{leave_session, client_disconnect}
use virgo_fleet.Webrtc.Teardown.{
  leave_node, close_node_webrtc_sessions, close_if_on_node, disconnect_if_user,
  close_node_webrtc_sessions_for_user, revoked, close_if_revoked,
  close_webrtc_sessions_for_fleet_sessions,
}
use virgo_fleet.Webrtc.Consistency.{IsIndexed, node_key, user_key, client_key}
use virgo_fleet.Webrtc.Lookups.{
  session_at, at-close_session, at-store, at-each, at-forget_session, at-tell_session_node,
}

module _ (w : Sockets) where
  abbrev off_node : ℕ → Option Session → Option Session
  off_node node_id none = none
  off_node node_id (some s) = if s.node_id == node_id then none else some s

  at-close_if_on_node :
      (node_id id : ℕ) (st : Signal) (j : ℕ)
      → session_at j (close_if_on_node w node_id id st)
        ≡ (if id == j then off_node node_id (session_at j st) else session_at j st)
  unfolding close_if_on_node
  at-close_if_on_node node_id id st j =
      ground (arith, at-close_session j w id (some virgo_fleet.Webrtc.State.access_revoked) true st)

  off_node_idem :
      (node_id : ℕ) (o : Option Session)
      → off_node node_id (off_node node_id o) ≡ off_node node_id o
  off_node_idem node_id none = refl
  off_node_idem node_id (some s) = ground arith

  disconnect_if_user_sessions :
      (user : ℕ) (cs : List ℕ) (st : Signal)
      → (each (disconnect_if_user w user) cs st).sessions ≡ st.sessions
  unfolding disconnect_if_user each
  disconnect_if_user_sessions user [] st = refl
  disconnect_if_user_sessions user (c ∷ cs) st =
      disconnect_if_user_sessions user cs (disconnect_if_user w user c st) ∙ (ground arith)

  -- What a session of a user on a node is.
  abbrev pub is_of : ℕ → ℕ → Option Session → Bool
  is_of node_id user none = false
  is_of node_id user (some s) = s.node_id == node_id && same s.user_id (some user)

  -- When a user's access to a node is revoked, exactly the sessions of that user on that node end;
  -- every other session is as it was. This rests on the reverse indexes being true.
  pub at-close_node_webrtc_sessions_for_user :
      (node_id user : ℕ) (st : Signal) (id : ℕ)
      → IsIndexed st
      → session_at id (close_node_webrtc_sessions_for_user w node_id (some user) st)
        ≡ (if is_of node_id user (session_at id st) then none else session_at id st)
  unfolding close_node_webrtc_sessions_for_user
  at-close_node_webrtc_sessions_for_user node_id user st id i =
      ap (lookup id) (disconnect_if_user_sessions user _ _)
      ∙ at-each (close_if_on_node w node_id) (off_node node_id) (at-close_if_on_node node_id)
          (off_node_idem node_id) (members user st.by_user) st id
      ∙ by_index (session_at id st) (i.users user id)
    where
      by_index :
          (o : Option Session)
          → has (members user st.by_user) id ≡ held user_key user o
          → (if has (members user st.by_user) id then off_node node_id o else o)
            ≡ (if is_of node_id user o then none else o)
      by_index none e = ground arith
      by_index (some s) e = ground arith

  -- What a browser socket leaves behind: an established session waits for its peer.
  abbrev left_behind : Option Session → Option Session
  left_behind none = none
  left_behind (some s) =
      if is_connected s.state
      then some (record s { orphan_timer = not (both_online w s) })
      else none

  both_online_timer :
      (s : Session) (b : Bool) → both_online w (record s { orphan_timer = b }) ≡ both_online w s
  unfolding both_online
  both_online_timer s b = refl

  left_behind_idem : (o : Option Session) → left_behind (left_behind o) ≡ left_behind o
  left_behind_idem none = refl
  left_behind_idem (some s) = ground (arith, both_online_timer s (not (both_online w s)))

  at-refresh_orphan_state :
      (s : Session) (id : ℕ) (st : Signal) (j : ℕ)
      → session_at j (refresh_orphan_state w s id st) ≡ (
          if id == j
          then some (record s { orphan_timer = not (both_online w s) })
          else session_at j st)
  unfolding refresh_orphan_state
  at-refresh_orphan_state s id st j = at-store j id _ st

  at-leave_session :
      (client node_id id : ℕ) (st : Signal) (j : ℕ)
      → session_at j (leave_session w client node_id id st)
        ≡ (if id == j then left_behind (session_at j st) else session_at j st)
  unfolding leave_session
  at-leave_session client node_id id st j = elim (Option-cases (lookup id st.sessions)) [
    | inl e ↦ rw (e, leave_session) (ground arith)
    | inr (s, e) ↦
        rw (e, leave_session)
          (ground (
            arith,
            at-refresh_orphan_state s id st j,
            at-forget_session j id (tell_session_node w s (closes id none) st),
            at-tell_session_node j w s (closes id none) st,
          ))
  ]

  -- When a browser socket disconnects, of its sessions the established ones stay, their orphan
  -- timer armed unless both ends are there, and the others end; a session of another socket is as
  -- it was.
  pub at-client_disconnect :
      (client node_id : ℕ) (st : Signal) (id : ℕ)
      → IsIndexed st
      → session_at id (client_disconnect w client node_id st) ≡ (
          if held client_key client (session_at id st)
          then left_behind (session_at id st)
          else session_at id st)
  unfolding client_disconnect
  at-client_disconnect client node_id st id i =
      at-each (leave_session w client node_id) left_behind (at-leave_session client node_id)
        left_behind_idem (members client st.by_client) _ id
      ∙ rw (i.clients client id)

  -- What a node's socket leaves behind when it drops.
  abbrev left_by_node : ℕ → Option Session → Option Session
  left_by_node node_socket none = none
  left_by_node node_socket (some s) =
      if s.node_socket == node_socket then left_behind (some s) else some s

  left_by_node_idem :
      (n : ℕ) (o : Option Session) → left_by_node n (left_by_node n o) ≡ left_by_node n o
  left_by_node_idem n none = refl
  left_by_node_idem n (some s) = ground (arith, both_online_timer s (not (both_online w s)))

  at-leave_node :
      (n id : ℕ) (st : Signal) (j : ℕ)
      → session_at j (leave_node w n id st)
        ≡ (if id == j then left_by_node n (session_at j st) else session_at j st)
  unfolding leave_node
  at-leave_node n id st j = elim (Option-cases (lookup id st.sessions)) [
    | inl e ↦ rw (e, leave_node) (ground arith)
    | inr (s, e) ↦
        rw (e, leave_node)
          (ground (
            arith,
            at-refresh_orphan_state s id st j,
            at-close_session j w id (some node_offline) false st,
          ))
  ]

  -- When a node's socket drops, of the sessions that run over it the established ones stay, their
  -- orphan timer armed unless both ends are there, and those still negotiating end; a session of
  -- another node, or over another socket of the same node, is as it was.
  pub at-close_node_webrtc_sessions :
      (node_id n : ℕ) (st : Signal) (id : ℕ)
      → IsIndexed st
      → session_at id (close_node_webrtc_sessions w node_id n st) ≡ (
          if held node_key node_id (session_at id st)
          then left_by_node n (session_at id st)
          else session_at id st)
  unfolding close_node_webrtc_sessions
  at-close_node_webrtc_sessions node_id n st id i =
      at-each (leave_node w n) (left_by_node n) (at-leave_node n) (left_by_node_idem n)
        (members node_id st.by_node) st id
      ∙ rw (i.nodes node_id id)

  at-close_if_revoked :
      (ids : List ℕ) (entry : ℕ × Session) (st : Signal) (j : ℕ)
      → session_at j (close_if_revoked w ids entry st) ≡ (
          if entry.0 == j && revoked w ids (w.client_session entry.1.client_socket)
          then none
          else session_at j st)
  unfolding close_if_revoked
  at-close_if_revoked ids (id, s) st j =
      ground (arith, at-close_session j w id (some session_revoked) true st)

  loop_revoked :
      (ids : List ℕ) (entries : List (ℕ × Session)) (st : Signal) (j : ℕ) (s : Session)
      → session_at j (each (close_if_revoked w ids) entries st) ≡ some s
      → (session_at j st ≡ some s)
        × (lookup j entries ≡ some s → revoked w ids (w.client_session s.client_socket) ≡ false)
  unfolding each lookup
  loop_revoked ids [] st j s e = (e, λ h. cc)
  loop_revoked ids ((id, t) ∷ entries) st j s e =
      let (still, rest) = loop_revoked ids entries (close_if_revoked w ids (id, t) st) j s e in
      let step = at-close_if_revoked ids (id, t) st j in
      (ground (arith, step), λ h. ground (arith, step, rest))

  -- After fleet sessions are revoked, no signaling session is left whose browser socket belongs to
  -- one of them; a session that is left is as it was.
  pub at-close_webrtc_sessions_for_fleet_sessions :
      (ids : List ℕ) (st : Signal) (id : ℕ) (s : Session)
      → session_at id (close_webrtc_sessions_for_fleet_sessions w ids st) ≡ some s
      → (revoked w ids (w.client_session s.client_socket) ≡ false) × (session_at id st ≡ some s)
  unfolding close_webrtc_sessions_for_fleet_sessions
  at-close_webrtc_sessions_for_fleet_sessions ids st id s e =
      let (before, safe) = loop_revoked ids st.sessions st id s e in (safe before, before)
