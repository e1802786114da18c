-- ===== src/NodeProxy/Handlers.antt =====
-- utils/node_proxy.js: the dispatcher of a node socket, the handlers of a bridged client, the timer of
-- a call, the calls of the rest of the server, and all of them as one step.
use virgo_fleet.Base.{
  ℕ, ◌+◌, Bool, ◌&&◌, Option, none, some, List, [], ◌∷◌, ◌==◌, if◌then◌else◌, each, lookup, insert,
  erase, members,
}
use virgo_fleet.NodeProxy.State.{
  Session, Bridge, Answer, timed_out, answered, to_client, opened, event_sent, call_sent, closed,
  disconnected, webrtc_closed_for, Proxy, emit, track_client, untrack_client, client_of, settle,
  drop_session_calls,
}

-- What a client that connects to `/fleet/{nodeId}/{module}` brings.
pub record Arrival : Type 0 where
  pub client : ℕ
  pub user_id : ℕ
  pub node_id : ℕ
  pub namespace : ℕ

-- `bridgeClient`, up to the handlers that it attaches.
unfoldable pub bridge_client : Arrival → ℕ → ℕ → Proxy → Proxy
unfolding track_client
bridge_client a node_socket session_id st =
    let tracked = track_client a.node_id a.client (record st {
      sessions =
          insert session_id (record { node_socket = node_socket; client = a.client }) st.sessions;
      bridges =
          insert a.client
            (record {
              session_id = session_id;
              node_socket = node_socket;
              node_id = a.node_id;
              user_id = a.user_id;
            })
            st.bridges;
    }) in
    emit (opened node_socket session_id a.namespace a.user_id) tracked

-- The `connection` of `registerFleetProxy`. A name that does not parse is none.
unfoldable pub connect : (ℕ → Option ℕ) → (ℕ → Bool) → Option Arrival → ℕ → ℕ → Proxy → Proxy
unfolding bridge_client
connect registry is_connected none client session_id st = emit (disconnected client) st
connect registry is_connected (some a) client session_id st = elim (registry a.node_id) [
  | none ↦ emit (disconnected client) st
  | some node_socket ↦
      if is_connected node_socket
      then bridge_client a node_socket session_id st
      else emit (disconnected client) st
]

-- `proxy:event`
unfoldable pub node_event : ℕ → ℕ → ℕ → ℕ → Proxy → Proxy
unfolding client_of
node_event node_socket session_id event args st = elim (client_of node_socket session_id st) [
  | none ↦ st
  | some client ↦ emit (to_client client event args) st
]

-- `proxy:reply`: the call must be of the session that is named.
unfoldable pub node_reply : ℕ → ℕ → ℕ → Answer → Proxy → Proxy
unfolding settle
node_reply node_socket session_id call_id answer st = elim (lookup call_id st.calls) [
  | none ↦ st
  | some call ↦
      if call.node_socket == node_socket && call.session_id == session_id
      then emit (answered call.ack answer) (settle call_id st)
      else st
]

-- `proxy:close`
unfoldable pub node_close : ℕ → ℕ → Proxy → Proxy
unfolding client_of
node_close node_socket session_id st = elim (client_of node_socket session_id st) [
  | none ↦ st
  | some client ↦ emit (disconnected client) (record st { sessions = erase session_id st.sessions })
]

-- The body of a call's timer.
unfoldable pub time_out : ℕ → Proxy → Proxy
unfolding settle
time_out call_id st = elim (lookup call_id st.timers) [
  | none ↦ st
  | some ack ↦ emit (answered ack timed_out) (settle call_id st)
]

-- A call with an acknowledgement: its timer is armed, and it waits.
unfoldable pub place_call : Bridge → ℕ → ℕ → ℕ → Proxy → Proxy
place_call b call_id event args st =
    emit (call_sent b.node_socket b.session_id call_id event args) (record st {
      calls =
          insert call_id
            (record { node_socket = b.node_socket; session_id = b.session_id; ack = st.next_ack })
            st.calls;
      timers = insert call_id st.next_ack st.timers;
      next_ack = st.next_ack + 1;
    })

-- `onAny` of a bridged client, by whether the last argument is a function.
unfoldable pub client_event : (ℕ → Bool) → ℕ → Bool → ℕ → ℕ → ℕ → Proxy → Proxy
unfolding place_call
client_event is_connected client has_ack call_id event args st = elim (lookup client st.bridges) [
  | none ↦ st
  | some b ↦
      if is_connected b.node_socket
      then (if has_ack
          then place_call b call_id event args st
          else emit (event_sent b.node_socket b.session_id event args) st)
      else st
]

-- What a client that leaves takes with it; its handlers are gone too.
unfoldable pub forget_client : ℕ → Bridge → Proxy → Proxy
unfolding drop_session_calls untrack_client
forget_client client b st = untrack_client b.node_id client (
    drop_session_calls b.node_socket b.session_id
      (record st { sessions = erase b.session_id st.sessions; bridges = erase client st.bridges }))

-- `disconnect` of a bridged client.
unfoldable pub client_leave : (ℕ → Bool) → ℕ → Proxy → Proxy
unfolding forget_client
client_leave is_connected client st = elim (lookup client st.bridges) [
  | none ↦ st
  | some b ↦
      let left = forget_client client b st in
      if is_connected b.node_socket then emit (closed b.node_socket b.session_id) left else left
]

abbrev pub disconnect : ℕ → Proxy → Proxy
disconnect client st = emit (disconnected client) st

unfoldable pub disconnect_node_clients : ℕ → Proxy → Proxy
disconnect_node_clients node_id st = elim (lookup node_id st.clients_by_node) [
  | none ↦ st
  | some clients ↦
      let told = each disconnect clients st in
      record told { clients_by_node = erase node_id told.clients_by_node }
]

-- The loop of `disconnectNodeSocketClients` over the node socket's sessions.
unfoldable pub disconnect_sessions : ℕ → List (ℕ × Session) → Proxy → Proxy
disconnect_sessions node_socket [] st = st
disconnect_sessions node_socket ((session_id, s) ∷ rest) st =
    disconnect_sessions node_socket rest
      (if s.node_socket == node_socket then disconnect s.client st else st)

unfoldable pub disconnect_node_socket_clients : ℕ → Proxy → Proxy
unfolding disconnect_sessions
disconnect_node_socket_clients node_socket st = disconnect_sessions node_socket st.sessions st

-- The round of the loop of `disconnectNodeUser`.
unfoldable pub disconnect_if_user : ℕ → ℕ → Proxy → Proxy
disconnect_if_user user_id client st = elim (lookup client st.bridges) [
  | none ↦ st
  | some b ↦ if b.user_id == user_id then disconnect client st else st
]

unfoldable pub disconnect_node_user : ℕ → Option ℕ → Proxy → Proxy
unfolding disconnect_if_user
disconnect_node_user node_id none st = st
disconnect_node_user node_id (some user_id) st =
    emit (webrtc_closed_for node_id user_id)
      (each (disconnect_if_user user_id) (members node_id st.clients_by_node) st)

pub data Event : Type 0 where
  connects : Option Arrival → (client session_id : ℕ) → Event
  node_says : (node_socket session_id event args : ℕ) → Event
  node_replies : (node_socket session_id call_id : ℕ) → Answer → Event
  node_closes : (node_socket session_id : ℕ) → Event
  call_times_out : (call_id : ℕ) → Event
  client_says : (client : ℕ) → Bool → (call_id event args : ℕ) → Event
  client_leaves : (client : ℕ) → Event
  node_is_lost : (node_id : ℕ) → Event
  node_socket_is_lost : (node_socket : ℕ) → Event
  user_is_revoked : (node_id : ℕ) → Option ℕ → Event

module _ (registry : ℕ → Option ℕ) (is_connected : ℕ → Bool) where
  unfoldable pub step : Event → Proxy → Proxy
  unfolding connect node_event node_reply node_close time_out client_event client_leave
      disconnect_node_clients disconnect_node_socket_clients disconnect_node_user
  step (connects arrival client session_id) st =
      connect registry is_connected arrival client session_id st
  step (node_says n sid event args) st = node_event n sid event args st
  step (node_replies n sid cid answer) st = node_reply n sid cid answer st
  step (node_closes n sid) st = node_close n sid st
  step (call_times_out cid) st = time_out cid st
  step (client_says client has_ack cid event args) st =
      client_event is_connected client has_ack cid event args st
  step (client_leaves client) st = client_leave is_connected client st
  step (node_is_lost node_id) st = disconnect_node_clients node_id st
  step (node_socket_is_lost n) st = disconnect_node_socket_clients n st
  step (user_is_revoked node_id user_id) st = disconnect_node_user node_id user_id st
