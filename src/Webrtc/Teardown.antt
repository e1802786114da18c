-- ===== src/Webrtc/Teardown.antt =====
-- src/utils/webrtc_signal.js, lines 462 to 515: what other parts of the program end sessions by.
use virgo_fleet.Base.{
  ℕ, Bool, true, false, List, [], ◌∷◌, Option, none, some, ◌==◌, same, if◌then◌else◌, each, has,
  lookup, members,
}
use virgo_fleet.Webrtc.State.{
  is_connected, Session, PendingResume, node_offline, access_revoked, session_revoked, disconnect,
  Sockets, Signal, emit,
}
use virgo_fleet.Webrtc.Sessions.{close_session, refresh_orphan_state}

module _ (w : Sockets) where
  -- One session of a node whose socket has dropped.
  unfoldable pub leave_node : ℕ → ℕ → Signal → Signal
  leave_node node_socket id st = elim (lookup id st.sessions) [
    | none ↦ st
    | some s ↦
        if s.node_socket == node_socket
        then if is_connected s.state
          then refresh_orphan_state w s id st
          else close_session w id (some node_offline) false st
        else st
  ]

  -- The loop over the pending resumes, the node's half.
  unfoldable pub drop_node_half : ℕ → List (ℕ × PendingResume) → List (ℕ × PendingResume)
  drop_node_half node_socket [] = []
  drop_node_half node_socket ((id, p) ∷ rest) =
      let kept = drop_node_half node_socket rest in
      if same p.node_socket (some node_socket)
      then elim p.client_socket [
        | none ↦ kept
        | some c ↦ (id, record p { node_socket = none }) ∷ kept
      ]
      else (id, p) ∷ kept

  -- `closeNodeWebrtcSessions`, which is always given the socket.
  unfoldable pub close_node_webrtc_sessions : ℕ → ℕ → Signal → Signal
  close_node_webrtc_sessions node_id node_socket st =
      let left = each (leave_node node_socket) (members node_id st.by_node) st in
      record left { pending = drop_node_half node_socket left.pending }

  unfoldable pub close_if_on_node : ℕ → ℕ → Signal → Signal
  close_if_on_node node_id id st = elim (lookup id st.sessions) [
    | none ↦ st
    | some s ↦ if s.node_id == node_id then close_session w id (some access_revoked) true st else st
  ]

  unfoldable pub disconnect_if_user : ℕ → ℕ → Signal → Signal
  disconnect_if_user user client st =
      if same (w.client_user client) (some user) then emit (disconnect client) st else st

  -- `closeNodeWebrtcSessionsForUser`
  unfoldable pub close_node_webrtc_sessions_for_user : ℕ → Option ℕ → Signal → Signal
  close_node_webrtc_sessions_for_user node_id none st = st
  close_node_webrtc_sessions_for_user node_id (some user) st =
      let closed_all = each (close_if_on_node node_id) (members user st.by_user) st in
      each (disconnect_if_user user) (members node_id closed_all.signal_sockets) closed_all

  abbrev pub revoked : List ℕ → Option ℕ → Bool
  revoked ids none = false
  revoked ids (some id) = has ids id

  unfoldable pub close_if_revoked : List ℕ → ℕ × Session → Signal → Signal
  close_if_revoked ids (id, s) st =
      if revoked ids (w.client_session s.client_socket)
      then close_session w id (some session_revoked) true st
      else st

  -- `closeWebrtcSessionsForFleetSessions`
  unfoldable pub close_webrtc_sessions_for_fleet_sessions : List ℕ → Signal → Signal
  close_webrtc_sessions_for_fleet_sessions ids st = each (close_if_revoked ids) st.sessions st
