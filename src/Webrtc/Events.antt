-- ===== src/Webrtc/Events.antt =====
-- src/utils/webrtc_signal.js: everything that runs on the module's maps, as events. Each event comes
-- with the sockets as they are when it runs and with the time, which the environment chooses.
use virgo_fleet.Base.{ℕ, Bool, List, Option, none, ◌≡◌, lookup}
use virgo_fleet.Webrtc.State.{NodeEvent, too_many_requests, failed, ack, Sockets, Signal, emit}
use virgo_fleet.Webrtc.Sessions.{orphan_timeout, resume_timeout, recheck_session_access}
use virgo_fleet.Webrtc.NodeSide.{relay_to_client, node_connected, node_sessions}
use virgo_fleet.Webrtc.ClientSide.{
  DbAnswer, Grant, request_begin, request_end, client_offer, client_candidate, client_close,
  client_resume, client_connect, client_disconnect, negotiation_timed_out,
}
use virgo_fleet.Webrtc.Teardown.{
  close_node_webrtc_sessions, close_node_webrtc_sessions_for_user,
  close_webrtc_sessions_for_fleet_sessions,
}

pub data Event : Type 0 where
  node_relays : (node_socket : ℕ) → NodeEvent → (id payload : ℕ) → Event
  node_connects : (node_socket id : ℕ) → Event
  node_announces : (node_socket : ℕ) (ids : List ℕ) → Event
  request_begins : (client node_id : ℕ) → Event
  request_ends : (client node_id : ℕ) → Grant → Option DbAnswer → Event
  offers candidates : (client node_id id payload : ℕ) → Event
  closes_own resumes : (client node_id id : ℕ) → Event
  connects disconnects : (client node_id : ℕ) → Event
  negotiation_times_out orphan_times_out resume_times_out : (id : ℕ) → Event
  access_checked : (id : ℕ) (allowed : Bool) → Event
  node_drops : (node_id node_socket : ℕ) → Event
  access_revoked : (node_id : ℕ) (user : Option ℕ) → Event
  sessions_revoked : (ids : List ℕ) → Event

module _ (w : Sockets) (now : ℕ) where
  unfoldable pub step : Event → Signal → Signal
  step (node_relays n event id payload) = relay_to_client w now n event id payload
  step (node_connects n id) = node_connected w now n id
  step (node_announces n ids) = node_sessions w now n ids
  step (request_begins c node_id) = λ st. (request_begin w c node_id st).0
  step (request_ends c node_id grant answer) = request_end w c node_id now grant answer
  step (offers c node_id id payload) = client_offer w c node_id now id payload
  step (candidates c node_id id payload) = client_candidate w c node_id id payload
  step (closes_own c node_id id) = client_close w c node_id id
  step (resumes c node_id id) = client_resume w c node_id now id
  step (connects c node_id) = client_connect w c node_id
  step (disconnects c node_id) = client_disconnect w c node_id
  step (negotiation_times_out id) = negotiation_timed_out w id
  step (orphan_times_out id) = orphan_timeout w id
  step (resume_times_out id) = resume_timeout w id
  step (access_checked id allowed) = recheck_session_access w id allowed
  step (node_drops node_id n) = close_node_webrtc_sessions w node_id n
  step (access_revoked node_id user) = close_node_webrtc_sessions_for_user w node_id user
  step (sessions_revoked ids) = close_webrtc_sessions_for_fleet_sessions w ids

-- `randomUUID` does not repeat an id that a session has.
abbrev pub IsFresh : Event → Signal → Type 0
IsFresh (request_ends c node_id grant answer) st = lookup grant.session_id st.sessions ≡ none
IsFresh _ st = Unit {0}

-- The states that the module can be in.
pub data Reach : Signal → Type 0 where
  begun : (st : Signal) → st ≡ virgo_fleet.Webrtc.State.start → Reach st
  stepped :
      {st : Signal} (w : Sockets) (now : ℕ) (e : Event) (st' : Signal)
      → Reach st
      → IsFresh e st
      → st' ≡ step w now e st
      → Reach st'
