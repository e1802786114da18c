-- ===== src/Webrtc/Sessions.antt =====
-- src/utils/webrtc_signal.js, lines 82 to 216: the bookkeeping that the handlers share.
use virgo_fleet.Base.{
  ℕ, Bool, true, false, not, ◌&&◌, ◌||◌, Option, none, some, ◌==◌, if◌then◌else◌, length, lookup,
  insert, erase, members,
}
use virgo_fleet.Webrtc.Index.{index_add, index_remove}
use virgo_fleet.Webrtc.State.{
  connected, Session, PendingResume, Reason, node_offline, access_revoked, Message, closes,
  to_client, to_node, recheck, Sockets, Signal, emit,
}

-- `forgetSession`. The session object is out of the map before its last transition.
unfoldable pub forget_session : ℕ → Signal → Signal
forget_session id st = elim (lookup id st.sessions) [
  | none ↦ st
  | some s ↦ record st {
    sessions = erase id st.sessions;
    by_node = index_remove (some s.node_id) id st.by_node;
    by_user = index_remove s.user_id id st.by_user;
    by_client = index_remove (some s.client_socket) id st.by_client;
  }
]

unfoldable pub count_sessions_for_client : ℕ → Signal → ℕ
count_sessions_for_client client st = length (members client st.by_client)

-- `session.field = …` on the object that the map holds.
abbrev pub store : ℕ → Session → Signal → Signal
store id s st = record st { sessions = insert id s st.sessions }

-- `sessions.set(…)` and the three `indexAdd`s that go with it.
unfoldable pub add_session : ℕ → Session → Signal → Signal
add_session id s st = record st {
  sessions = insert id s st.sessions;
  by_node = index_add (some s.node_id) id st.by_node;
  by_user = index_add s.user_id id st.by_user;
  by_client = index_add (some s.client_socket) id st.by_client;
}

unfoldable pub reassign_session_client : Session → ℕ → ℕ → Signal → Signal
reassign_session_client s id client st = record st {
  sessions = insert id (record s { client_socket = client }) st.sessions;
  by_client = index_add (some client) id (index_remove (some s.client_socket) id st.by_client);
}

unfoldable pub drop_pending_resume : ℕ → Signal → Signal
drop_pending_resume id st = record st { pending = erase id st.pending }

abbrev pub no_resume : ℕ → PendingResume
no_resume node_id = record { node_id = node_id; node_socket = none; client_socket = none }

-- The beginning of `offerResume`: a resume that waits for another node is dropped, and a new one
-- is begun unless one of this node waits.
unfoldable pub pending_of : ℕ → ℕ → Signal → PendingResume
pending_of id node_id st = elim (lookup id st.pending) [
  | none ↦ no_resume node_id
  | some p ↦ if p.node_id == node_id then p else no_resume node_id
]

unfoldable pub drop_stale_resume : ℕ → ℕ → Signal → Signal
unfolding drop_pending_resume
drop_stale_resume id node_id st = elim (lookup id st.pending) [
  | none ↦ st
  | some p ↦ if p.node_id == node_id then st else drop_pending_resume id st
]

module _ (w : Sockets) where
  -- `getNodeSocket(nodeId)?.connected`
  unfoldable pub registered : ℕ → Bool
  registered node_id = elim (w.registry node_id) [ none ↦ false | some n ↦ w.node_connected n ]

  -- The socket that `tellSessionNode` speaks to.
  unfoldable pub reachable_node : Session → Option ℕ
  reachable_node s =
      if w.node_connected s.node_socket then some s.node_socket else elim (w.registry s.node_id) [
        | none ↦ none
        | some n ↦ if w.node_connected n then some n else none
      ]

  unfoldable pub tell_session_node : Session → Message → Signal → Signal
  unfolding reachable_node
  tell_session_node s message st = elim (reachable_node s) [
    | none ↦ st
    | some n ↦ emit (to_node n message) st
  ]

  unfoldable pub close_session : ℕ → Option Reason → Bool → Signal → Signal
  close_session id reason tell_node st = elim (lookup id st.sessions) [
    | none ↦ st
    | some s ↦
        let told = if tell_node then tell_session_node s (closes id none) st else st in
        forget_session id (emit (to_client s.client_socket (closes id reason)) told)
  ]

  -- `Boolean(session.nodeSocket?.connected || getNodeSocket(session.nodeId)?.connected)`, and the
  -- browser's side.
  unfoldable pub both_online : Session → Bool
  unfolding registered
  both_online s =
      (w.node_connected s.node_socket || registered s.node_id) && w.client_connected s.client_socket

  -- Disarms the orphan timer when both ends are there, and arms it otherwise.
  unfoldable pub refresh_orphan_state : Session → ℕ → Signal → Signal
  unfolding both_online
  refresh_orphan_state s id st = store id (record s { orphan_timer = not (both_online s) }) st

  -- The body of the orphan timer.
  unfoldable pub orphan_timeout : ℕ → Signal → Signal
  orphan_timeout id st = close_session id (some node_offline) true st

  module _ (now : ℕ) where
    unfoldable pub adopt_session : ℕ → ℕ → ℕ → ℕ → Signal → Signal
    unfolding add_session
    adopt_session id node_id node_socket client st = emit (recheck id) (
        add_session id
          (record {
            client_socket = client;
            node_socket = node_socket;
            node_id = node_id;
            user_id = w.client_user client;
            state = connected;
            state_changed_at = now;
            negotiation_timer = false;
            orphan_timer = false;
          })
          st)

    -- The end of `offerResume`: both halves make a session, and one alone waits.
    unfoldable pub settle_resume : ℕ → ℕ → Option ℕ → Option ℕ → Signal → Signal
    settle_resume id node_id (some n) (some c) st =
        adopt_session id node_id n c (drop_pending_resume id st)
    settle_resume id node_id n c st = record st {
      pending =
          insert id (record { node_id = node_id; node_socket = n; client_socket = c }) st.pending;
    }

    -- `offerResume(sessionId, nodeId, { nodeSocket })`
    unfoldable pub offer_resume_node : ℕ → ℕ → ℕ → Signal → Signal
    offer_resume_node id node_id n st =
        settle_resume id node_id (some n) (pending_of id node_id st).client_socket
          (drop_stale_resume id node_id st)

    -- `offerResume(sessionId, nodeId, { clientSocket })`
    unfoldable pub offer_resume_client : ℕ → ℕ → ℕ → Signal → Signal
    offer_resume_client id node_id c st =
        settle_resume id node_id (pending_of id node_id st).node_socket (some c)
          (drop_stale_resume id node_id st)

  unfoldable pub close_node_half : ℕ → Option ℕ → Signal → Signal
  close_node_half id none st = st
  close_node_half id (some n) st =
      if w.node_connected n then emit (to_node n (closes id none)) st else st

  unfoldable pub close_client_half : ℕ → Option ℕ → Signal → Signal
  close_client_half id none st = st
  close_client_half id (some c) st = emit (to_client c (closes id (some node_offline))) st

  -- The body of a pending resume's timer: the other half has not come in time.
  unfoldable pub resume_timeout : ℕ → Signal → Signal
  resume_timeout id st = elim (lookup id st.pending) [
    | none ↦ st
    | some p ↦
        close_client_half id p.client_socket
          (close_node_half id p.node_socket (drop_pending_resume id st))
  ]

  -- `recheckSessionAccess`, after the database has answered.
  unfoldable pub recheck_session_access : ℕ → Bool → Signal → Signal
  recheck_session_access id allowed st =
      if allowed then st else close_session id (some access_revoked) true st
