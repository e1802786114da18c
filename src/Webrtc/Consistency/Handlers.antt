-- ===== src/Webrtc/Consistency/Handlers.antt =====
-- src/utils/webrtc_signal.js: every handler keeps the reverse indexes true.
use virgo_fleet.Base.{ℕ, Bool, ◌≡◌, Option, none, some, arith, ◌==◌, lookup, if_keeps, Option_keeps}
use virgo_fleet.Webrtc.State.{Session, SessionState, Reason, Sockets, Signal, transition_session}
use virgo_fleet.Webrtc.Sessions.{
  close_session, refresh_orphan_state, adopt_session, settle_resume, drop_stale_resume,
  drop_pending_resume, offer_resume_node, offer_resume_client, resume_timeout, close_node_half,
  close_client_half,
}
use virgo_fleet.Webrtc.Consistency.{
  IsIndexed, SameKeys, emit-IsIndexed, forget_session-IsIndexed, add_session-IsIndexed,
  store-IsIndexed, tell_session_node-IsIndexed,
}

pub close_session-IsIndexed :
    (w : Sockets) (id : ℕ) (r : Option Reason) (tell : Bool) (st : Signal)
    → IsIndexed st
    → IsIndexed (close_session w id r tell st)
unfolding close_session
close_session-IsIndexed w id r tell st i =
    Option_keeps IsIndexed (lookup id st.sessions) _ _ (λ e. i)
      λ s e. forget_session-IsIndexed id _ (
        emit-IsIndexed _ _
          (if_keeps IsIndexed tell _ _ (λ _. tell_session_node-IsIndexed w s _ st i) (λ _. i)))

pub transition_session-SameKeys :
    (now : ℕ) (next : SessionState) (s : Session) → SameKeys s (transition_session now next s)
unfolding transition_session
transition_session-SameKeys now next s = ground arith

-- A session's state, timers and node socket are no keys.
pub refresh_orphan_state-IsIndexed :
    (w : Sockets) (s t : Session) (id : ℕ) (st : Signal)
    → lookup id st.sessions ≡ some s
    → SameKeys s t
    → IsIndexed st
    → IsIndexed (refresh_orphan_state w t id st)
unfolding refresh_orphan_state
refresh_orphan_state-IsIndexed w s t id st e k i = store-IsIndexed id s _ st e k i

pub drop_stale_resume_sessions :
    (id node_id : ℕ) (st : Signal) → (drop_stale_resume id node_id st).sessions ≡ st.sessions
unfolding drop_stale_resume
drop_stale_resume_sessions id node_id st = ground arith

drop_stale_resume-IsIndexed :
    (id node_id : ℕ) (st : Signal) → IsIndexed st → IsIndexed (drop_stale_resume id node_id st)
unfolding drop_stale_resume
drop_stale_resume-IsIndexed id node_id st i =
    Option_keeps IsIndexed (lookup id st.pending) _ _ (λ _. i)
      λ p _.
        if_keeps IsIndexed (p.node_id == node_id) _ _ (λ _. i)
          λ _. record { nodes = i.nodes; users = i.users; clients = i.clients }

settle_resume-IsIndexed :
    (w : Sockets) (now id node_id : ℕ) (n c : Option ℕ) (st : Signal)
    → lookup id st.sessions ≡ none
    → IsIndexed st
    → IsIndexed (settle_resume w now id node_id n c st)
unfolding settle_resume adopt_session drop_pending_resume
settle_resume-IsIndexed w now id node_id (some n) (some c) st e i = emit-IsIndexed _ _ (
    add_session-IsIndexed id _ (drop_pending_resume id st) e
      (record { nodes = i.nodes; users = i.users; clients = i.clients }))
settle_resume-IsIndexed w now id node_id n c st e i = record {
  nodes = i.nodes;
  users = i.users;
  clients = i.clients;
}

pub offer_resume_node-IsIndexed :
    (w : Sockets) (now id node_id n : ℕ) (st : Signal)
    → lookup id st.sessions ≡ none
    → IsIndexed st
    → IsIndexed (offer_resume_node w now id node_id n st)
unfolding offer_resume_node
offer_resume_node-IsIndexed w now id node_id n st e i =
    settle_resume-IsIndexed w now id node_id _ _ _ (rw (drop_stale_resume_sessions id node_id st) e)
      (drop_stale_resume-IsIndexed id node_id st i)

pub offer_resume_client-IsIndexed :
    (w : Sockets) (now id node_id c : ℕ) (st : Signal)
    → lookup id st.sessions ≡ none
    → IsIndexed st
    → IsIndexed (offer_resume_client w now id node_id c st)
unfolding offer_resume_client
offer_resume_client-IsIndexed w now id node_id c st e i =
    settle_resume-IsIndexed w now id node_id _ _ _ (rw (drop_stale_resume_sessions id node_id st) e)
      (drop_stale_resume-IsIndexed id node_id st i)

close_node_half-IsIndexed :
    (w : Sockets) (id : ℕ) (n : Option ℕ) (st : Signal)
    → IsIndexed st
    → IsIndexed (close_node_half w id n st)
unfolding close_node_half
close_node_half-IsIndexed w id none st i = i
close_node_half-IsIndexed w id (some n) st i =
    if_keeps IsIndexed (w.node_connected n) _ _ (λ _. emit-IsIndexed _ st i) (λ _. i)

close_client_half-IsIndexed :
    (w : Sockets) (id : ℕ) (c : Option ℕ) (st : Signal)
    → IsIndexed st
    → IsIndexed (close_client_half w id c st)
unfolding close_client_half
close_client_half-IsIndexed w id none st i = i
close_client_half-IsIndexed w id (some c) st i = emit-IsIndexed _ st i

pub resume_timeout-IsIndexed :
    (w : Sockets) (id : ℕ) (st : Signal) → IsIndexed st → IsIndexed (resume_timeout w id st)
unfolding resume_timeout drop_pending_resume
resume_timeout-IsIndexed w id st i =
    Option_keeps IsIndexed (lookup id st.pending) _ _ (λ _. i)
      λ p _. close_client_half-IsIndexed w id p.client_socket _ (
        close_node_half-IsIndexed w id p.node_socket _
          (record { nodes = i.nodes; users = i.users; clients = i.clients }))
