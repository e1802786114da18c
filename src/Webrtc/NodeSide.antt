-- ===== src/Webrtc/NodeSide.antt =====
-- src/utils/webrtc_signal.js, lines 218 to 286: what a node's control socket may say. Every function
-- takes the sockets, the time, and the node's socket.
use virgo_fleet.Base.{
  ℕ, Bool, true, false, not, ◌&&◌, List, [], none, some, ◌==◌, if◌then◌else◌, each, has, add,
  lookup, members,
}
use virgo_fleet.Webrtc.State.{
  SessionState, offer_received, answered, connected, is_connected, Session, node_offline, NodeEvent,
  answer, candidate, close, error, relayed, closes, to_client, to_node, recheck, Sockets, Signal,
  emit, transition_session,
}
use virgo_fleet.Webrtc.Sessions.{
  forget_session, store, close_session, refresh_orphan_state, offer_resume_node,
}

abbrev pub is_offer_received : SessionState → Bool
is_offer_received offer_received = true
is_offer_received _ = false

module _ (w : Sockets) (now node_socket : ℕ) where
  -- The part of `relayToClient` behind its first guard, an event at a time.
  unfoldable pub relay_event : NodeEvent → ℕ → ℕ → Session → Signal → Signal
  relay_event answer id payload s st =
      if is_offer_received s.state
      then emit (to_client s.client_socket (relayed answer id payload))
          (store id (transition_session now answered s) st)
      else st
  relay_event candidate id payload s st =
      emit (to_client s.client_socket (relayed candidate id payload)) st
  relay_event close id payload s st =
      forget_session id (emit (to_client s.client_socket (relayed close id payload)) st)
  relay_event error id payload s st =
      forget_session id (emit (to_client s.client_socket (relayed error id payload)) st)

  unfoldable pub relay_to_client : NodeEvent → ℕ → ℕ → Signal → Signal
  relay_to_client event id payload st = elim (lookup id st.sessions) [
    | none ↦ st
    | some s ↦ if s.node_id == w.node_of node_socket then relay_event event id payload s st else st
  ]

  -- 'webrtc:connected'
  unfoldable pub node_connected : ℕ → Signal → Signal
  node_connected id st = elim (lookup id st.sessions) [
    | none ↦ st
    | some s ↦
        if s.node_id == w.node_of node_socket
        then store id (record (transition_session now connected s) { negotiation_timer = false }) st
        else st
  ]

  -- One announced session of 'webrtc:sessions'.
  unfoldable pub announce_session : ℕ → Signal → Signal
  announce_session id st = elim (lookup id st.sessions) [
    | none ↦ offer_resume_node w now id (w.node_of node_socket) node_socket st
    | some s ↦
        if s.node_id == w.node_of node_socket
        then emit (recheck id)
            (refresh_orphan_state w (record s { node_socket = node_socket }) id st)
        else emit (to_node node_socket (closes id none)) st
  ]

  -- One session of the node that it may no longer know.
  unfoldable pub drop_unannounced : List ℕ → ℕ → Signal → Signal
  drop_unannounced announced id st = elim (lookup id st.sessions) [
    | none ↦ st
    | some s ↦
        if is_connected s.state && not (has announced id)
        then close_session w id (some node_offline) false st
        else st
  ]

  -- 'webrtc:sessions'; `new Set(sessionIds)` keeps the first of equal ids.
  unfoldable pub node_sessions : List ℕ → Signal → Signal
  node_sessions session_ids st =
      let announced = each add session_ids [] in
      let resumed = each announce_session announced st in
      each (drop_unannounced announced) (members (w.node_of node_socket) resumed.by_node) resumed
