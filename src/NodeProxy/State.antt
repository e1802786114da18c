-- ===== src/NodeProxy/State.antt =====
-- utils/node_proxy.js, lines 9 to 86: the sessions and calls of the node sockets. Sockets, nodes, users
-- and ids are numbers. Session and call ids are random and never repeat, so one map serves for the
-- maps of all node sockets, each entry with its node socket. An acknowledgement is named by the count
-- of those taken before it.
use virgo_fleet.Base.{
  ℕ, ◌&&◌, Option, none, some, List, [], ◌∷◌, ◌==◌, if◌then◌else◌, each, lookup, insert, erase, add,
  delete, members,
}

pub record Session : Type 0 where
  pub node_socket : ℕ
  pub client : ℕ

pub record Call : Type 0 where
  pub node_socket : ℕ
  pub session_id : ℕ
  pub ack : ℕ

-- What the handlers of a bridged client closed over.
pub record Bridge : Type 0 where
  pub session_id : ℕ
  pub node_socket : ℕ
  pub node_id : ℕ
  pub user_id : ℕ

-- What an acknowledgement is called with.
pub data Answer : Type 0 where
  result : (value : ℕ) → Answer
  failed : (message : ℕ) → Answer
  timed_out : Answer

pub data Effect : Type 0 where
  answered : (ack : ℕ) → Answer → Effect
  to_client : (client event args : ℕ) → Effect
  opened : (node_socket session_id namespace user_id : ℕ) → Effect
  event_sent : (node_socket session_id event args : ℕ) → Effect
  call_sent : (node_socket session_id call_id event args : ℕ) → Effect
  closed : (node_socket session_id : ℕ) → Effect
  disconnected : (client : ℕ) → Effect
  webrtc_closed_for : (node_id user_id : ℕ) → Effect

-- `timers` holds the armed timers, with the acknowledgement that each closed over.
pub record Proxy : Type 0 where
  pub sessions : List (ℕ × Session)
  pub calls : List (ℕ × Call)
  pub timers : List (ℕ × ℕ)
  pub bridges : List (ℕ × Bridge)
  pub clients_by_node : List (ℕ × List ℕ)
  pub next_ack : ℕ
  pub log : List Effect

abbrev pub start : Proxy
start = record {
  sessions = [];
  calls = [];
  timers = [];
  bridges = [];
  clients_by_node = [];
  next_ack = 0;
  log = [];
}

abbrev pub emit : Effect → Proxy → Proxy
emit e st = record st { log = e ∷ st.log }

unfoldable pub track_client : ℕ → ℕ → Proxy → Proxy
track_client node_id client st = record st {
  clients_by_node =
      insert node_id (add client (members node_id st.clients_by_node)) st.clients_by_node;
}

unfoldable pub untrack_client : ℕ → ℕ → Proxy → Proxy
untrack_client node_id client st = elim (lookup node_id st.clients_by_node) [
  | none ↦ st
  | some clients ↦ record st {
    clients_by_node = insert node_id (delete client clients) st.clients_by_node;
  }
]

-- `sessions.get(sessionId)` of a node socket's own map.
unfoldable pub client_of : ℕ → ℕ → Proxy → Option ℕ
client_of node_socket session_id st = elim (lookup session_id st.sessions) [
  | none ↦ none
  | some s ↦ if s.node_socket == node_socket then some s.client else none
]

-- `calls.delete(callId)` and `clearTimeout(call.timer)`.
unfoldable pub settle : ℕ → Proxy → Proxy
settle call_id st = record st { calls = erase call_id st.calls; timers = erase call_id st.timers }

-- The calls of a session over a node socket.
unfoldable pub calls_of : ℕ → ℕ → List (ℕ × Call) → List ℕ
calls_of node_socket session_id [] = []
calls_of node_socket session_id ((call_id, call) ∷ rest) =
    let others = calls_of node_socket session_id rest in
    if call.node_socket == node_socket && call.session_id == session_id
    then call_id ∷ others
    else others

unfoldable pub drop_session_calls : ℕ → ℕ → Proxy → Proxy
unfolding settle calls_of
drop_session_calls node_socket session_id st =
    each settle (calls_of node_socket session_id st.calls) st
