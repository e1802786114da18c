-- ===== src/Webrtc/Consistency/Steps.antt =====
-- src/utils/webrtc_signal.js: the reverse indexes are true in every state that can be reached.
use virgo_fleet.Base.{ℕ}
use virgo_fleet.Webrtc.State.{Sockets, Signal}
use virgo_fleet.Webrtc.Sessions.{orphan_timeout, recheck_session_access}
use virgo_fleet.Webrtc.Events.{
  Event, node_relays, node_connects, node_announces, request_begins, request_ends, offers,
  candidates, closes_own, resumes, connects, disconnects, negotiation_times_out, orphan_times_out,
  resume_times_out, access_checked, node_drops, access_revoked, sessions_revoked, step, IsFresh,
  Reach, begun, stepped,
}
use virgo_fleet.Base.{if_keeps, Bool}
use virgo_fleet.Webrtc.Consistency.{IsIndexed, start-IsIndexed}
use virgo_fleet.Webrtc.Consistency.Handlers.{close_session-IsIndexed, resume_timeout-IsIndexed}
use virgo_fleet.Webrtc.Consistency.NodeSide.{
  relay_to_client-IsIndexed, node_connected-IsIndexed, node_sessions-IsIndexed,
}
use virgo_fleet.Webrtc.Consistency.ClientSide.{
  request_begin-IsIndexed, request_end-IsIndexed, client_offer-IsIndexed,
  client_candidate-IsIndexed, client_close-IsIndexed, client_resume-IsIndexed,
  client_connect-IsIndexed, client_disconnect-IsIndexed, negotiation_timed_out-IsIndexed,
}
use virgo_fleet.Webrtc.Consistency.Teardown.{
  close_node_webrtc_sessions-IsIndexed, close_node_webrtc_sessions_for_user-IsIndexed,
  close_webrtc_sessions_for_fleet_sessions-IsIndexed,
}

recheck_session_access-IsIndexed :
    (w : Sockets) (id : ℕ) (allowed : Bool) (st : Signal)
    → IsIndexed st
    → IsIndexed (recheck_session_access w id allowed st)
unfolding recheck_session_access
recheck_session_access-IsIndexed w id allowed st i =
    if_keeps IsIndexed allowed _ _ (λ _. i) (λ _. close_session-IsIndexed w id _ _ st i)

-- Every event keeps each reverse index in agreement with the sessions, given that a new session's
-- id is not in use.
pub step-IsIndexed :
    (w : Sockets) (now : ℕ) (e : Event) (st : Signal)
    → IsFresh e st
    → IsIndexed st
    → IsIndexed (step w now e st)
unfolding step orphan_timeout
step-IsIndexed w now (node_relays n event id payload) st f i =
    relay_to_client-IsIndexed w now n event id payload st i
step-IsIndexed w now (node_connects n id) st f i = node_connected-IsIndexed w now n id st i
step-IsIndexed w now (node_announces n ids) st f i = node_sessions-IsIndexed w now n ids st i
step-IsIndexed w now (request_begins c node_id) st f i = request_begin-IsIndexed w c node_id st i
step-IsIndexed w now (request_ends c node_id grant answer) st f i =
    request_end-IsIndexed w c node_id now grant answer st f i
step-IsIndexed w now (offers c node_id id payload) st f i =
    client_offer-IsIndexed w c node_id now id payload st i
step-IsIndexed w now (candidates c node_id id payload) st f i =
    client_candidate-IsIndexed w c node_id id payload st i
step-IsIndexed w now (closes_own c node_id id) st f i = client_close-IsIndexed w c node_id id st i
step-IsIndexed w now (resumes c node_id id) st f i = client_resume-IsIndexed w c node_id now id st i
step-IsIndexed w now (connects c node_id) st f i = client_connect-IsIndexed w c node_id st i
step-IsIndexed w now (disconnects c node_id) st f i = client_disconnect-IsIndexed w c node_id st i
step-IsIndexed w now (negotiation_times_out id) st f i = negotiation_timed_out-IsIndexed w id st i
step-IsIndexed w now (orphan_times_out id) st f i = close_session-IsIndexed w id _ _ st i
step-IsIndexed w now (resume_times_out id) st f i = resume_timeout-IsIndexed w id st i
step-IsIndexed w now (access_checked id allowed) st f i =
    recheck_session_access-IsIndexed w id allowed st i
step-IsIndexed w now (node_drops node_id n) st f i =
    close_node_webrtc_sessions-IsIndexed w node_id n st i
step-IsIndexed w now (access_revoked node_id user) st f i =
    close_node_webrtc_sessions_for_user-IsIndexed w node_id user st i
step-IsIndexed w now (sessions_revoked ids) st f i =
    close_webrtc_sessions_for_fleet_sessions-IsIndexed w ids st i

-- In every state that the module can reach, a session id stands in the index of a node, of a user
-- or of a browser socket exactly when there is a session with that id and that node, user or socket.
pub Reach-IsIndexed : {st : Signal} → Reach st → IsIndexed st
Reach-IsIndexed (begun st e) = rw e start-IsIndexed
Reach-IsIndexed (stepped {st} w now event st' r f e) =
    rw e (step-IsIndexed w now event st f (Reach-IsIndexed r))
