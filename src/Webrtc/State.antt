-- ===== src/Webrtc/State.antt =====
-- src/utils/webrtc_signal.js, lines 19 to 59: the states of a signaling session, the module's maps,
-- and what the handlers read of sockets. Sockets, session ids, node ids and user ids are numbers.
use virgo_fleet.Base.{ℕ, Bool, true, false, List, [], ◌∷◌, Option, ltb, if◌then◌else◌}
use virgo_fleet.Webrtc.Index.{Index}

pub data SessionState : Type 0 where
  requested open_sent offer_received answered connected closing closed : SessionState

abbrev pub session_state_order : SessionState → ℕ
session_state_order requested = 0
session_state_order open_sent = 1
session_state_order offer_received = 2
session_state_order answered = 3
session_state_order connected = 4
session_state_order closing = 5
session_state_order closed = 6

abbrev pub is_connected : SessionState → Bool
is_connected connected = true
is_connected _ = false

-- A timer is true while it is armed.
pub record Session : Type 0 where
  pub client_socket : ℕ
  pub node_socket : ℕ
  pub node_id : ℕ
  pub user_id : Option ℕ
  pub state : SessionState
  pub state_changed_at : ℕ
  pub negotiation_timer : Bool
  pub orphan_timer : Bool

-- One half of a session that is being resumed waits for the other; its timer runs while it waits.
pub record PendingResume : Type 0 where
  pub node_id : ℕ
  pub node_socket : Option ℕ
  pub client_socket : Option ℕ

pub data Reason : Type 0 where
  node_offline access_revoked session_revoked negotiation_timeout : Reason

pub data NodeEvent : Type 0 where
  answer candidate close error : NodeEvent

-- What goes over a socket. A payload (SDP, candidate, token, servers) is relayed as it came.
pub data Message : Type 0 where
  opened : (session_id token servers : ℕ) → Message
  offered : (session_id payload : ℕ) → Message
  trickled : (session_id payload : ℕ) → Message
  relayed : NodeEvent → (session_id payload : ℕ) → Message
  closes : (session_id : ℕ) → Option Reason → Message

pub data Failure : Type 0 where
  too_many_requests too_many_sessions node_is_offline not_supported access_denied : Failure
  not_registered could_not_start session_id_required unknown_session : Failure

pub data Reply : Type 0 where
  succeeded : Reply
  started : (session_id token servers : ℕ) → Reply
  failed : Failure → Reply

pub data Effect : Type 0 where
  to_client to_node : (socket : ℕ) → Message → Effect
  ack : (socket : ℕ) → Reply → Effect
  disconnect : (socket : ℕ) → Effect
  recheck : (session_id : ℕ) → Effect

-- The sockets and the node registry, as a handler finds them when it runs.
pub record Sockets : Type 0 where
  pub client_connected : ℕ → Bool
  pub client_user : ℕ → Option ℕ
  pub client_session : ℕ → Option ℕ
  pub node_connected : ℕ → Bool
  pub node_of : ℕ → ℕ
  pub registry : ℕ → Option ℕ
  pub supports_webrtc : ℕ → Bool

-- The module's maps, and the effects so far, the newest first.
pub record Signal : Type 0 where
  pub sessions : List (ℕ × Session)
  pub by_node : Index
  pub by_user : Index
  pub by_client : Index
  pub signal_sockets : Index
  pub pending : List (ℕ × PendingResume)
  pub log : List Effect

abbrev pub start : Signal
start = record {
  sessions = [];
  by_node = [];
  by_user = [];
  by_client = [];
  signal_sockets = [];
  pending = [];
  log = [];
}

abbrev pub emit : Effect → Signal → Signal
emit e st = record st { log = e ∷ st.log }

-- `transitionSession`: a state is never left for an earlier one.
unfoldable pub transition_session : ℕ → SessionState → Session → Session
transition_session now next s =
    if ltb (session_state_order next) (session_state_order s.state)
    then s
    else record s { state = next; state_changed_at = now }
