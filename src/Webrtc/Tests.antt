-- ===== src/Webrtc/Tests.antt =====
-- src/utils/webrtc_signal.js: the theorems at a node with two browsers, and runs of the handshake.
use virgo_fleet.Base.{
  ℕ, ◌+◌, ◌≡◌, refl, true, false, ◌≤◌, [], ◌∷◌, Option, none, some, arith, is_some, lookup, insert,
  erase, each, add, delete,
}
use virgo_fleet.Webrtc.Index.{index_add, index_remove}
use virgo_fleet.Webrtc.State.{
  Session, SessionState, open_sent, connected, answer, Sockets, Signal, start, transition_session,
}
use virgo_fleet.Webrtc.Sessions.{
  add_session, tell_session_node, reachable_node, count_sessions_for_client, registered,
}
use virgo_fleet.Webrtc.NodeSide.{relay_event, relay_to_client, node_connected}
use virgo_fleet.Webrtc.ClientSide.{
  DbAnswer, Grant, open_session, open_on, open_with, request_end, client_offer, client_disconnect,
}
use virgo_fleet.Webrtc.Teardown.{
  close_node_webrtc_sessions, close_node_webrtc_sessions_for_user,
  close_webrtc_sessions_for_fleet_sessions, close_if_revoked,
}
use virgo_fleet.Webrtc.Events.{
  Event, request_ends, offers, node_relays, node_connects, step, Reach, begun, stepped,
}
use virgo_fleet.Webrtc.Consistency.{IsIndexed}
use virgo_fleet.Webrtc.Consistency.Steps.{Reach-IsIndexed}
use virgo_fleet.Webrtc.Lookups.{session_at}
use virgo_fleet.Webrtc.Revocation.{
  at-close_node_webrtc_sessions_for_user, at-client_disconnect, at-close_node_webrtc_sessions,
  at-close_webrtc_sessions_for_fleet_sessions,
}
use virgo_fleet.Webrtc.Handshake.{Moves}
use virgo_fleet.Webrtc.Handshake.Steps.{step_Moves}
use virgo_fleet.Webrtc.Requests.{request_end-Bounded, request_end-granted}

-- Browsers 1 and 2 of user 5, under the fleet sessions 21 and 22; node 7 on socket 70.
abbrev sockets : Sockets
sockets = record {
  client_connected = λ c. true;
  client_user = λ c. some 5;
  client_session = λ c. some (20 + c);
  node_connected = λ n. true;
  node_of = λ n. 7;
  registry = λ node_id. some 70;
  supports_webrtc = λ node_id. true;
}

abbrev grant : ℕ → Grant
grant id = record { session_id = id; servers = 9; mint = λ t. t + 1 }

abbrev allowed : Option DbAnswer
allowed = some (record { allowed = true; node_token = some 3 })

abbrev ask : ℕ → ℕ → Event
ask client id = request_ends client 7 (grant id) allowed

one : Signal
unfolding step
one = step sockets 100 (ask 1 11) start

machine : Unit {0}
unfolding one step request_end open_with open_on open_session add_session index_add index_remove
    lookup insert erase add delete transition_session count_sessions_for_client client_offer
    tell_session_node reachable_node relay_to_client relay_event node_connected
machine = tt

handshake : Signal
unfolding step
handshake =
    step sockets 104 (node_connects 70 11)
      (step sockets 103 (node_relays 70 answer 11 0) (step sockets 102 (offers 1 7 11 0) one))

abbrev state_of : Option Session → Option SessionState
state_of none = none
state_of (some s) = some s.state

handshake_test :
    (state_of (session_at 11 one) ≡ some open_sent)
    × (state_of (session_at 11 handshake) ≡ some connected)
unfolding machine handshake
handshake_test = (refl, refl)

abbrev first : Session
first = record {
  client_socket = 1;
  node_socket = 70;
  node_id = 7;
  user_id = some 5;
  state = open_sent;
  state_changed_at = 100;
  negotiation_timer = true;
  orphan_timer = false;
}

one_holds : session_at 11 one ≡ some first
unfolding machine
one_holds = refl

one_reached : Reach one
unfolding one lookup
one_reached = stepped sockets 100 (ask 1 11) one (begun start refl) refl refl

one-IsIndexed : IsIndexed one
one-IsIndexed = Reach-IsIndexed one_reached

Reach-IsIndexed_example : IsIndexed one
Reach-IsIndexed_example = Reach-IsIndexed one_reached

step_Moves_example :
    Moves sockets
      (offers 1 7 11 0)
      11
      first
      (session_at 11 (step sockets 102 (offers 1 7 11 0) one))
step_Moves_example = step_Moves sockets 102 (offers 1 7 11 0) one 11 first tt one_holds

at-close_node_webrtc_sessions_for_user_example :
    session_at 11 (close_node_webrtc_sessions_for_user sockets 7 (some 5) one) ≡ none
unfolding machine
at-close_node_webrtc_sessions_for_user_example =
    at-close_node_webrtc_sessions_for_user sockets 7 5 one 11 one-IsIndexed

at-client_disconnect_example : session_at 11 (client_disconnect sockets 1 7 one) ≡ none
unfolding machine
at-client_disconnect_example = at-client_disconnect sockets 1 7 one 11 one-IsIndexed

at-close_node_webrtc_sessions_example :
    session_at 11 (close_node_webrtc_sessions sockets 7 70 one) ≡ none
unfolding machine
at-close_node_webrtc_sessions_example =
    at-close_node_webrtc_sessions sockets 7 70 one 11 one-IsIndexed

kept : session_at 11 (close_webrtc_sessions_for_fleet_sessions sockets (22 ∷ []) one) ≡ some first
unfolding machine close_webrtc_sessions_for_fleet_sessions each close_if_revoked
kept = refl

at-close_webrtc_sessions_for_fleet_sessions_example :
    (false ≡ false) × (session_at 11 one ≡ some first)
at-close_webrtc_sessions_for_fleet_sessions_example =
    at-close_webrtc_sessions_for_fleet_sessions sockets (22 ∷ []) one 11 first kept

request_end-Bounded_example :
    count_sessions_for_client 1 (request_end sockets 1 7 101 (grant 12) allowed one) ≤ 4
unfolding machine
request_end-Bounded_example =
    request_end-Bounded sockets 1 7 101 (grant 12) allowed one (omega arith)

request_end-granted_example :
    is_some (session_at 12 (request_end sockets 1 7 101 (grant 12) allowed one)) ≡ true
unfolding machine registered
request_end-granted_example = request_end-granted sockets 1 7 101 (grant 12) allowed one refl
