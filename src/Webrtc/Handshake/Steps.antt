-- ===== src/Webrtc/Handshake/Steps.antt =====
-- src/utils/webrtc_signal.js: the state machine of a signaling session, over every event.
use virgo_fleet.Base.{
  ℕ, ◌≡◌, refl, ap, ◌∙◌, Bool, List, Option, none, some, ◌==◌, same, each_inv, lookup, members,
  if_keeps, Option_keeps,
}
use virgo_fleet.Webrtc.State.{Session, is_connected, Sockets, Signal}
use virgo_fleet.Webrtc.Sessions.{
  orphan_timeout, resume_timeout, close_node_half, close_client_half, drop_pending_resume,
  recheck_session_access,
}
use virgo_fleet.Webrtc.ClientSide.{request_begin, client_connect}
use virgo_fleet.Webrtc.Teardown.{
  leave_node, close_node_webrtc_sessions, close_if_on_node, disconnect_if_user,
  close_node_webrtc_sessions_for_user, revoked, close_if_revoked,
  close_webrtc_sessions_for_fleet_sessions,
}
use virgo_fleet.Webrtc.Events.{
  Event, node_relays, node_connects, node_announces, request_begins, request_ends, offers,
  candidates, closes_own, resumes, connects, disconnects, negotiation_times_out, orphan_times_out,
  resume_times_out, access_checked, node_drops, access_revoked, sessions_revoked, step, IsFresh,
}
use virgo_fleet.Webrtc.Lookups.{session_at}
use virgo_fleet.Webrtc.Handshake.{
  QuietIn, close_session-QuietIn, refresh_orphan_state-QuietIn, Moves, IsQuiet-Moves, start_quiet,
  start_present,
}
use virgo_fleet.Webrtc.Handshake.NodeMoves.{
  relay_to_client_Moves, node_connected_Moves, node_sessions-QuietIn,
}
use virgo_fleet.Webrtc.Handshake.ClientMoves.{
  client_offer_Moves, client_candidate-QuietIn, client_close-QuietIn, client_resume-QuietIn,
  client_disconnect-QuietIn, request_begin_sessions, request_end-QuietIn,
  negotiation_timed_out-QuietIn,
}

module _ (w : Sockets) (j : ℕ) (s : Session) where
  close_node_half-QuietIn :
      (id : ℕ) (n : Option ℕ) (st : Signal)
      → QuietIn s j st
      → QuietIn s j (close_node_half w id n st)
  unfolding close_node_half
  close_node_half-QuietIn id none st q = q
  close_node_half-QuietIn id (some n) st q =
      if_keeps (QuietIn s j) (w.node_connected n) _ _ (λ _. q) (λ _. q)

  close_client_half-QuietIn :
      (id : ℕ) (c : Option ℕ) (st : Signal)
      → QuietIn s j st
      → QuietIn s j (close_client_half w id c st)
  unfolding close_client_half
  close_client_half-QuietIn id none st q = q
  close_client_half-QuietIn id (some c) st q = q

  resume_timeout-QuietIn :
      (id : ℕ) (st : Signal) → QuietIn s j st → QuietIn s j (resume_timeout w id st)
  unfolding resume_timeout drop_pending_resume
  resume_timeout-QuietIn id st q =
      Option_keeps (QuietIn s j) (lookup id st.pending) _ _ (λ _. q)
        λ p _.
          close_client_half-QuietIn id p.client_socket _
            (close_node_half-QuietIn id p.node_socket _ q)

  recheck_session_access-QuietIn :
      (id : ℕ) (allowed : Bool) (st : Signal)
      → QuietIn s j st
      → QuietIn s j (recheck_session_access w id allowed st)
  unfolding recheck_session_access
  recheck_session_access-QuietIn id allowed st q =
      if_keeps (QuietIn s j) allowed _ _ (λ _. q) (λ _. close_session-QuietIn s j w id _ _ st q)

  leave_node-QuietIn :
      (n id : ℕ) (st : Signal) → QuietIn s j st → QuietIn s j (leave_node w n id st)
  unfolding leave_node
  leave_node-QuietIn n id st q =
      Option_keeps (QuietIn s j) (lookup id st.sessions) _ _ (λ _. q)
        λ t e.
          if_keeps (QuietIn s j) (t.node_socket == n) _ _
            (λ _.
              if_keeps (QuietIn s j) (is_connected t.state) _ _
                (λ _. refresh_orphan_state-QuietIn s j w id t t st e refl q)
                (λ _. close_session-QuietIn s j w id _ _ st q))
            (λ _. q)

  close_node_webrtc_sessions-QuietIn :
      (node_id n : ℕ) (st : Signal)
      → QuietIn s j st
      → QuietIn s j (close_node_webrtc_sessions w node_id n st)
  unfolding close_node_webrtc_sessions
  close_node_webrtc_sessions-QuietIn node_id n st q =
      each_inv (QuietIn s j) (leave_node w n) (leave_node-QuietIn n) (members node_id st.by_node) st
        q

  close_if_on_node-QuietIn :
      (node_id id : ℕ) (st : Signal)
      → QuietIn s j st
      → QuietIn s j (close_if_on_node w node_id id st)
  unfolding close_if_on_node
  close_if_on_node-QuietIn node_id id st q =
      Option_keeps (QuietIn s j) (lookup id st.sessions) _ _ (λ _. q)
        λ t e.
          if_keeps (QuietIn s j) (t.node_id == node_id) _ _
            (λ _. close_session-QuietIn s j w id _ _ st q) (λ _. q)

  disconnect_if_user-QuietIn :
      (user c : ℕ) (st : Signal) → QuietIn s j st → QuietIn s j (disconnect_if_user w user c st)
  unfolding disconnect_if_user
  disconnect_if_user-QuietIn user c st q =
      if_keeps (QuietIn s j) (same (w.client_user c) (some user)) _ _ (λ _. q) (λ _. q)

  close_for_user-QuietIn :
      (node_id : ℕ) (user : Option ℕ) (st : Signal)
      → QuietIn s j st
      → QuietIn s j (close_node_webrtc_sessions_for_user w node_id user st)
  unfolding close_node_webrtc_sessions_for_user
  close_for_user-QuietIn node_id none st q = q
  close_for_user-QuietIn node_id (some user) st q =
      each_inv (QuietIn s j) (disconnect_if_user w user) (disconnect_if_user-QuietIn user) _ _ (
        each_inv (QuietIn s j) (close_if_on_node w node_id) (close_if_on_node-QuietIn node_id)
          (members user st.by_user) st q)

  close_if_revoked-QuietIn :
      (ids : List ℕ) (entry : ℕ × Session) (st : Signal)
      → QuietIn s j st
      → QuietIn s j (close_if_revoked w ids entry st)
  unfolding close_if_revoked
  close_if_revoked-QuietIn ids (id, t) st q =
      if_keeps (QuietIn s j) (revoked w ids (w.client_session t.client_socket)) _ _
        (λ _. close_session-QuietIn s j w id _ _ st q) (λ _. q)

  close_for_fleet_sessions-QuietIn :
      (ids : List ℕ) (st : Signal)
      → QuietIn s j st
      → QuietIn s j (close_webrtc_sessions_for_fleet_sessions w ids st)
  unfolding close_webrtc_sessions_for_fleet_sessions
  close_for_fleet_sessions-QuietIn ids st q =
      each_inv (QuietIn s j) (close_if_revoked w ids) (close_if_revoked-QuietIn ids) st.sessions st
        q

-- Whatever event runs, a session that there was has ended, or keeps its state, or takes a step of
-- the handshake: an offer from its own browser socket takes it from OPEN_SENT to OFFER_RECEIVED, an
-- answer over a socket of its own node from OFFER_RECEIVED to ANSWERED, and a report of success
-- over a socket of its own node to CONNECTED. A new session's id is not in use.
pub step_Moves :
    (w : Sockets) (now : ℕ) (e : Event) (st : Signal) (j : ℕ) (s : Session)
    → IsFresh e st
    → session_at j st ≡ some s
    → Moves w e j s (session_at j (step w now e st))
unfolding step orphan_timeout client_connect
step_Moves w now (node_relays n event id payload) st j s f h =
    relay_to_client_Moves w now n j s event id payload st h
step_Moves w now (node_connects n id) st j s f h = node_connected_Moves w now n j s id st h
step_Moves w now (node_announces n ids) st j s f h =
    IsQuiet-Moves w _ j s _ (node_sessions-QuietIn w now n j s ids st (start_present j s st h))
step_Moves w now (request_begins c node_id) st j s f h = IsQuiet-Moves w _ j s _ (
    start_quiet j s (request_begin w c node_id st).0
      (ap (lookup j) (request_begin_sessions w c node_id j s st) ∙ h))
step_Moves w now (request_ends c node_id grant answer) st j s f h =
    IsQuiet-Moves w _ j s _ (request_end-QuietIn w c node_id j s now grant answer st f h)
step_Moves w now (offers c node_id id payload) st j s f h =
    client_offer_Moves w c node_id j s now id payload st h
step_Moves w now (candidates c node_id id payload) st j s f h =
    IsQuiet-Moves w _ j s _
      (client_candidate-QuietIn w c node_id j s id payload st (start_quiet j s st h))
step_Moves w now (closes_own c node_id id) st j s f h =
    IsQuiet-Moves w _ j s _ (client_close-QuietIn w c node_id j s id st (start_quiet j s st h))
step_Moves w now (resumes c node_id id) st j s f h =
    IsQuiet-Moves w _ j s _ (client_resume-QuietIn w c node_id j s now id st h)
step_Moves w now (connects c node_id) st j s f h = IsQuiet-Moves w _ j s _ (start_quiet j s st h)
step_Moves w now (disconnects c node_id) st j s f h =
    IsQuiet-Moves w _ j s _ (client_disconnect-QuietIn w c node_id j s st (start_quiet j s st h))
step_Moves w now (negotiation_times_out id) st j s f h =
    IsQuiet-Moves w _ j s _ (negotiation_timed_out-QuietIn w id j s st (start_quiet j s st h))
step_Moves w now (orphan_times_out id) st j s f h =
    IsQuiet-Moves w _ j s _ (close_session-QuietIn s j w id _ _ st (start_quiet j s st h))
step_Moves w now (resume_times_out id) st j s f h =
    IsQuiet-Moves w _ j s _ (resume_timeout-QuietIn w j s id st (start_quiet j s st h))
step_Moves w now (access_checked id allowed) st j s f h =
    IsQuiet-Moves w _ j s _
      (recheck_session_access-QuietIn w j s id allowed st (start_quiet j s st h))
step_Moves w now (node_drops node_id n) st j s f h =
    IsQuiet-Moves w _ j s _
      (close_node_webrtc_sessions-QuietIn w j s node_id n st (start_quiet j s st h))
step_Moves w now (access_revoked node_id user) st j s f h =
    IsQuiet-Moves w _ j s _ (close_for_user-QuietIn w j s node_id user st (start_quiet j s st h))
step_Moves w now (sessions_revoked ids) st j s f h =
    IsQuiet-Moves w _ j s _ (close_for_fleet_sessions-QuietIn w j s ids st (start_quiet j s st h))
