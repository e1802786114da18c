-- ===== src/Webrtc/Handshake/ClientMoves.antt =====
-- src/utils/webrtc_signal.js: what a browser says, and the states of sessions.
use virgo_fleet.Base.{
  ℕ, ◌≡◌, refl, sym, ap, ◌∙◌, inl, inr, true, not, ◌&&◌, Option, none, some, arith, ◌==◌, leb,
  each_inv, lookup, insert, members, if_keeps, Option_keeps, Bool-cases, lookup-insert,
}
use virgo_fleet.Webrtc.State.{
  Session, SessionState, is_connected, offer_received, open_sent, Sockets, Signal,
  transition_session, offered as offered_message,
}
use virgo_fleet.Webrtc.Sessions.{
  store, add_session, drop_stale_resume, reassign_session_client, count_sessions_for_client,
  offer_resume_client,
}
use virgo_fleet.Webrtc.ClientSide.{
  DbAnswer, Grant, max_sessions_per_socket, is_open_sent, request_begin, new_session, open_session,
  open_on, open_with, request_end, client_offer, client_candidate, client_close, may_resume,
  client_resume, leave_session, client_disconnect, negotiation_timed_out,
}
use virgo_fleet.Webrtc.Events.{offers}
use virgo_fleet.Webrtc.Lookups.{session_at, at-store, at-tell_session_node}
use virgo_fleet.Webrtc.Consistency.Handlers.{drop_stale_resume_sessions}
use virgo_fleet.Webrtc.Handshake.{
  QuietIn, IsPresent-IsQuiet, forget_session-QuietIn, close_session-QuietIn,
  tell_session_node-QuietIn, store-QuietIn, refresh_orphan_state-QuietIn, Moves, stayed, offered,
  start_quiet, start_present,
}
use virgo_fleet.Webrtc.Handshake.NodeMoves.{settle_resume-PresentIn}

is_open_sent_lem : (x : SessionState) → is_open_sent x ≡ true → x ≡ open_sent
is_open_sent_lem open_sent h = refl
is_open_sent_lem _ h = cc

transition_offered :
    (now : ℕ) (t : Session)
    → is_open_sent t.state ≡ true
    → (transition_session now offer_received t).state ≡ offer_received
unfolding transition_session
transition_offered now t h = rw (is_open_sent_lem t.state h) refl

module _ (w : Sockets) (client node_id : ℕ) (j : ℕ) (s : Session) where
  pub client_offer_Moves :
      (now id payload : ℕ) (st : Signal)
      → session_at j st ≡ some s
      → Moves w
          (offers client node_id id payload)
          j
          s
          (session_at j (client_offer w client node_id now id payload st))
  unfolding client_offer
  client_offer_Moves now id payload st h =
      let e = offers client node_id id payload in
      let P : Signal → Type 0 = λ x. Moves w e j s (session_at j x) in
      Option_keeps P (lookup id st.sessions) _ _ (λ _. stayed s h refl)
        λ t found.
          if_keeps P (t.client_socket == client && is_open_sent t.state) _ _
            (λ own.
              let u : Session = transition_session now offer_received t in
              let told = at-tell_session_node j w t (offered_message id payload) (store id u st) in
              elim (Bool-cases (id == j)) [
                | inr other ↦ stayed s (told ∙ at-store j id u st ∙ rw other h) refl
                | inl hit ↦
                    let same_id : id ≡ j = ground arith in
                    let same_session : t ≡ s = ground (arith, same_id) in
                    let sent : is_open_sent t.state ≡ true = ground arith in
                    let mine : client ≡ s.client_socket = ground (arith, same_session) in
                    offered u node_id payload (told ∙ at-store j id u st ∙ rw hit refl)
                      (ap (λ c. offers c node_id id payload) mine
                        ∙ ap (λ x. offers s.client_socket node_id x payload) same_id)
                      (ap (λ (x : Session). x.state) (sym same_session)
                        ∙ is_open_sent_lem t.state sent)
                      (transition_offered now t sent)
              ])
            (λ _. stayed s h refl)

  pub client_candidate-QuietIn :
      (id payload : ℕ) (st : Signal)
      → QuietIn s j st
      → QuietIn s j (client_candidate w client node_id id payload st)
  unfolding client_candidate
  client_candidate-QuietIn id payload st q =
      Option_keeps (QuietIn s j) (lookup id st.sessions) _ _ (λ _. q)
        λ t e.
          if_keeps (QuietIn s j) (t.client_socket == client) _ _
            (λ _. tell_session_node-QuietIn s j w t _ st q) (λ _. q)

  pub client_close-QuietIn :
      (id : ℕ) (st : Signal) → QuietIn s j st → QuietIn s j (client_close w client node_id id st)
  unfolding client_close
  client_close-QuietIn id st q =
      Option_keeps (QuietIn s j) (lookup id st.sessions) _ _ (λ _. q)
        λ t e.
          if_keeps (QuietIn s j) (t.client_socket == client) _ _
            (λ _. forget_session-QuietIn s j id _ (tell_session_node-QuietIn s j w t _ st q))
            (λ _. q)

  pub client_resume-QuietIn :
      (now id : ℕ) (st : Signal)
      → session_at j st ≡ some s
      → QuietIn s j (client_resume w client node_id now id st)
  unfolding client_resume reassign_session_client offer_resume_client
  client_resume-QuietIn now id st h =
      if_keeps (QuietIn s j) (id == 0) _ _ (λ _. start_quiet j s st h)
        λ _.
          Option_keeps (QuietIn s j) (lookup id st.sessions) _ _
            (λ e.
              let same_sessions = drop_stale_resume_sessions id node_id st in
              IsPresent-IsQuiet s _ (
                settle_resume-PresentIn w now client j s id node_id _ _
                  (drop_stale_resume id node_id st) (rw same_sessions e)
                  (rw same_sessions (start_present j s st h))))
            λ t e.
              if_keeps (QuietIn s j) (may_resume w client node_id t) _ _
                (λ _.
                  let u : Session = record t { client_socket = client } in
                  refresh_orphan_state-QuietIn s j w id u u _ (at-store id id u st ∙ ground arith)
                    refl (store-QuietIn s j id t u st e refl (start_quiet j s st h)))
                (λ _. start_quiet j s st h)

  leave_session-QuietIn :
      (id : ℕ) (st : Signal) → QuietIn s j st → QuietIn s j (leave_session w client node_id id st)
  unfolding leave_session
  leave_session-QuietIn id st q =
      Option_keeps (QuietIn s j) (lookup id st.sessions) _ _ (λ _. q)
        λ t e.
          if_keeps (QuietIn s j) (is_connected t.state) _ _
            (λ _. refresh_orphan_state-QuietIn s j w id t t st e refl q)
            (λ _. forget_session-QuietIn s j id _ (tell_session_node-QuietIn s j w t _ st q))

  pub client_disconnect-QuietIn :
      (st : Signal) → QuietIn s j st → QuietIn s j (client_disconnect w client node_id st)
  unfolding client_disconnect
  client_disconnect-QuietIn st q =
      each_inv (QuietIn s j) (leave_session w client node_id) leave_session-QuietIn
        (members client st.by_client) _ q

  pub request_begin_sessions :
      (st : Signal) → (request_begin w client node_id st).0.sessions ≡ st.sessions
  unfolding request_begin
  request_begin_sessions st = ground arith

  module _ (now : ℕ) (grant : Grant) where
    open_session-QuietIn :
        (n token : ℕ) (st : Signal)
        → session_at grant.session_id st ≡ none
        → session_at j st ≡ some s
        → QuietIn s j (open_session w client node_id now grant n token st)
    unfolding open_session add_session
    open_session-QuietIn n token st fresh h =
        let id = grant.session_id in
        let fresh_one : Session = new_session w client node_id now grant n in
        let sent : Session = record (transition_session now open_sent fresh_one) {
          negotiation_timer = true;
        } in
        start_quiet j s (open_session w client node_id now grant n token st) (
          ground (
            arith,
            lookup-insert id j sent (insert id fresh_one st.sessions),
            lookup-insert id j fresh_one st.sessions,
          ))

    open_on-QuietIn :
        (o : Option ℕ) (token : ℕ) (st : Signal)
        → session_at grant.session_id st ≡ none
        → session_at j st ≡ some s
        → QuietIn s j (open_on w client node_id now grant o token st)
    unfolding open_on
    open_on-QuietIn none token st fresh h = start_quiet j s st h
    open_on-QuietIn (some n) token st fresh h =
        if_keeps (QuietIn s j) (w.node_connected n) _ _
          (λ _. open_session-QuietIn n token st fresh h) (λ _. start_quiet j s st h)

    open_with-QuietIn :
        (o : Option ℕ) (st : Signal)
        → session_at grant.session_id st ≡ none
        → session_at j st ≡ some s
        → QuietIn s j (open_with w client node_id now grant o st)
    unfolding open_with
    open_with-QuietIn none st fresh h = start_quiet j s st h
    open_with-QuietIn (some token) st fresh h =
        if_keeps (QuietIn s j) (not (w.client_connected client)) _ _ (λ _. start_quiet j s st h)
          λ _.
            if_keeps (QuietIn s j)
              (leb max_sessions_per_socket (count_sessions_for_client client st)) _ _
              (λ _. start_quiet j s st h) λ _. open_on-QuietIn (w.registry node_id) token st fresh h

    pub request_end-QuietIn :
        (answer : Option DbAnswer) (st : Signal)
        → session_at grant.session_id st ≡ none
        → session_at j st ≡ some s
        → QuietIn s j (request_end w client node_id now grant answer st)
    unfolding request_end
    request_end-QuietIn none st fresh h = start_quiet j s st h
    request_end-QuietIn (some answer) st fresh h =
        if_keeps (QuietIn s j) (not answer.allowed) _ _ (λ _. start_quiet j s st h)
          λ _. open_with-QuietIn answer.node_token st fresh h

pub negotiation_timed_out-QuietIn :
    (w : Sockets) (id j : ℕ) (s : Session) (st : Signal)
    → QuietIn s j st
    → QuietIn s j (negotiation_timed_out w id st)
unfolding negotiation_timed_out
negotiation_timed_out-QuietIn w id j s st q =
    Option_keeps (QuietIn s j) (lookup id st.sessions) _ _ (λ _. q)
      λ t e.
        if_keeps (QuietIn s j) (is_connected t.state) _ _ (λ _. q)
          (λ _. close_session-QuietIn s j w id _ _ st q)
