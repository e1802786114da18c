-- ===== src/Webrtc/Consistency/ClientSide.antt =====
-- src/utils/webrtc_signal.js: what a browser says keeps the reverse indexes true.
use virgo_fleet.Base.{
  ℕ, ◌≡◌, refl, not, ◌&&◌, Option, none, some, ◌==◌, leb, each_inv, lookup, members, lookup-insert,
  if_keeps, Option_keeps, arith, Bool,
}
use virgo_fleet.Webrtc.State.{Session, open_sent, offer_received, is_connected, Sockets, Signal}
use virgo_fleet.Webrtc.Sessions.{
  count_sessions_for_client, registered, reassign_session_client, add_session,
}
use virgo_fleet.Webrtc.ClientSide.{
  DbAnswer, Grant, max_sessions_per_socket, is_open_sent, request_begin, new_session, open_session,
  open_on, open_with, request_end, client_offer, client_candidate, client_close, may_resume,
  client_resume, client_connect, leave_session, client_disconnect, negotiation_timed_out,
}
use virgo_fleet.Webrtc.Consistency.{
  IsIndexed, emit-IsIndexed, forget_session-IsIndexed, add_session-IsIndexed, store-IsIndexed,
  reassign_session_client-IsIndexed, tell_session_node-IsIndexed,
}
use virgo_fleet.Webrtc.Consistency.Handlers.{
  close_session-IsIndexed, transition_session-SameKeys, refresh_orphan_state-IsIndexed,
  offer_resume_client-IsIndexed,
}

module _ (w : Sockets) (client node_id : ℕ) where
  pub request_begin-IsIndexed :
      (st : Signal) → IsIndexed st → IsIndexed (request_begin w client node_id st).0
  unfolding request_begin
  request_begin-IsIndexed st i =
      let P : Signal × Bool → Type 0 = λ r. IsIndexed r.0 in
      if_keeps P (leb max_sessions_per_socket (count_sessions_for_client client st)) _ _
        (λ _. emit-IsIndexed _ st i)
        λ _.
          if_keeps P (not (registered w node_id)) _ _ (λ _. emit-IsIndexed _ st i)
            λ _.
              if_keeps P (not (w.supports_webrtc node_id)) _ _ (λ _. emit-IsIndexed _ st i) λ _. i

  module _ (now : ℕ) (grant : Grant) where
    open_session-IsIndexed :
        (n token : ℕ) (st : Signal)
        → lookup grant.session_id st.sessions ≡ none
        → IsIndexed st
        → IsIndexed (open_session w client node_id now grant n token st)
    unfolding open_session add_session
    open_session-IsIndexed n token st e i =
        let s : Session = new_session w client node_id now grant n in
        emit-IsIndexed _ _ (
          store-IsIndexed grant.session_id s _ _
            (ground (arith, lookup-insert grant.session_id grant.session_id s st.sessions))
            (transition_session-SameKeys now open_sent s)
            (emit-IsIndexed _ _ (add_session-IsIndexed grant.session_id s st e i)))

    open_on-IsIndexed :
        (o : Option ℕ) (token : ℕ) (st : Signal)
        → lookup grant.session_id st.sessions ≡ none
        → IsIndexed st
        → IsIndexed (open_on w client node_id now grant o token st)
    unfolding open_on
    open_on-IsIndexed none token st e i = emit-IsIndexed _ st i
    open_on-IsIndexed (some n) token st e i =
        if_keeps IsIndexed (w.node_connected n) _ _ (λ _. open_session-IsIndexed n token st e i)
          (λ _. emit-IsIndexed _ st i)

    open_with-IsIndexed :
        (o : Option ℕ) (st : Signal)
        → lookup grant.session_id st.sessions ≡ none
        → IsIndexed st
        → IsIndexed (open_with w client node_id now grant o st)
    unfolding open_with
    open_with-IsIndexed none st e i = emit-IsIndexed _ st i
    open_with-IsIndexed (some token) st e i =
        if_keeps IsIndexed (not (w.client_connected client)) _ _ (λ _. i)
          λ _.
            if_keeps IsIndexed (leb max_sessions_per_socket (count_sessions_for_client client st)) _
              _ (λ _. emit-IsIndexed _ st i)
              λ _. open_on-IsIndexed (w.registry node_id) token st e i

    pub request_end-IsIndexed :
        (answer : Option DbAnswer) (st : Signal)
        → lookup grant.session_id st.sessions ≡ none
        → IsIndexed st
        → IsIndexed (request_end w client node_id now grant answer st)
    unfolding request_end
    request_end-IsIndexed none st e i = emit-IsIndexed _ st i
    request_end-IsIndexed (some answer) st e i =
        if_keeps IsIndexed (not answer.allowed) _ _
          (λ _. emit-IsIndexed _ _ (emit-IsIndexed _ st i))
          λ _. open_with-IsIndexed answer.node_token st e i

  pub client_offer-IsIndexed :
      (now id payload : ℕ) (st : Signal)
      → IsIndexed st
      → IsIndexed (client_offer w client node_id now id payload st)
  unfolding client_offer
  client_offer-IsIndexed now id payload st i =
      Option_keeps IsIndexed (lookup id st.sessions) _ _ (λ _. i)
        λ s e.
          if_keeps IsIndexed (s.client_socket == client && is_open_sent s.state) _ _
            (λ _.
              tell_session_node-IsIndexed w s _ _
                (store-IsIndexed id s _ st e (transition_session-SameKeys now offer_received s) i))
            (λ _. i)

  pub client_candidate-IsIndexed :
      (id payload : ℕ) (st : Signal)
      → IsIndexed st
      → IsIndexed (client_candidate w client node_id id payload st)
  unfolding client_candidate
  client_candidate-IsIndexed id payload st i =
      Option_keeps IsIndexed (lookup id st.sessions) _ _ (λ _. i)
        λ s e.
          if_keeps IsIndexed (s.client_socket == client) _ _
            (λ _. tell_session_node-IsIndexed w s _ st i) (λ _. i)

  pub client_close-IsIndexed :
      (id : ℕ) (st : Signal) → IsIndexed st → IsIndexed (client_close w client node_id id st)
  unfolding client_close
  client_close-IsIndexed id st i =
      Option_keeps IsIndexed (lookup id st.sessions) _ _ (λ _. i)
        λ s e.
          if_keeps IsIndexed (s.client_socket == client) _ _
            (λ _. forget_session-IsIndexed id _ (tell_session_node-IsIndexed w s _ st i)) (λ _. i)

  pub client_resume-IsIndexed :
      (now id : ℕ) (st : Signal)
      → IsIndexed st
      → IsIndexed (client_resume w client node_id now id st)
  unfolding client_resume reassign_session_client
  client_resume-IsIndexed now id st i =
      if_keeps IsIndexed (id == 0) _ _ (λ _. emit-IsIndexed _ st i)
        λ _.
          Option_keeps IsIndexed (lookup id st.sessions) _ _
            (λ e. emit-IsIndexed _ _ (offer_resume_client-IsIndexed w now id node_id client st e i))
            λ s e.
              if_keeps IsIndexed (may_resume w client node_id s) _ _
                (λ _. emit-IsIndexed _ _ (
                  refresh_orphan_state-IsIndexed w (record s { client_socket = client }) _ id _
                    (ground (
                      arith,
                      lookup-insert id id (record s { client_socket = client }) st.sessions,
                    ))
                    (refl, refl, refl) (reassign_session_client-IsIndexed s id client st e i)))
                (λ _. emit-IsIndexed _ st i)

  pub client_connect-IsIndexed :
      (st : Signal) → IsIndexed st → IsIndexed (client_connect w client node_id st)
  unfolding client_connect
  client_connect-IsIndexed st i = record { nodes = i.nodes; users = i.users; clients = i.clients }

  leave_session-IsIndexed :
      (id : ℕ) (st : Signal) → IsIndexed st → IsIndexed (leave_session w client node_id id st)
  unfolding leave_session
  leave_session-IsIndexed id st i =
      Option_keeps IsIndexed (lookup id st.sessions) _ _ (λ _. i)
        λ s e.
          if_keeps IsIndexed (is_connected s.state) _ _
            (λ _. refresh_orphan_state-IsIndexed w s s id st e (refl, refl, refl) i)
            (λ _. forget_session-IsIndexed id _ (tell_session_node-IsIndexed w s _ st i))

  pub client_disconnect-IsIndexed :
      (st : Signal) → IsIndexed st → IsIndexed (client_disconnect w client node_id st)
  unfolding client_disconnect
  client_disconnect-IsIndexed st i =
      let kept =
        each_inv IsIndexed (leave_session w client node_id) leave_session-IsIndexed
          (members client st.by_client) _
          (record { nodes = i.nodes; users = i.users; clients = i.clients }) in
      record { nodes = kept.nodes; users = kept.users; clients = kept.clients }

pub negotiation_timed_out-IsIndexed :
    (w : Sockets) (id : ℕ) (st : Signal) → IsIndexed st → IsIndexed (negotiation_timed_out w id st)
unfolding negotiation_timed_out
negotiation_timed_out-IsIndexed w id st i =
    Option_keeps IsIndexed (lookup id st.sessions) _ _ (λ _. i)
      λ s e.
        if_keeps IsIndexed (is_connected s.state) _ _ (λ _. i)
          (λ _. close_session-IsIndexed w id _ _ st i)
