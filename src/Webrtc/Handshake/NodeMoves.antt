-- ===== src/Webrtc/Handshake/NodeMoves.antt =====
-- src/utils/webrtc_signal.js: what a node says, and the states of sessions.
use virgo_fleet.Base.{
  ℕ, ◌≡◌, refl, sym, ap, ◌∙◌, ◌⊎◌, inl, inr, true, false, not, ◌&&◌, List, [], Option, none, some,
  arith, ◌==◌, each, each_inv, add, has, lookup, members, if_keeps, Option_keeps, Bool-cases,
  lookup-insert,
}
use virgo_fleet.Webrtc.State.{
  NodeEvent, answer, candidate, close, error, Session, SessionState, is_connected, offer_received,
  Sockets, Signal, transition_session,
}
use virgo_fleet.Webrtc.Sessions.{
  store, adopt_session, add_session, settle_resume, drop_stale_resume, drop_pending_resume,
  offer_resume_node,
}
use virgo_fleet.Webrtc.NodeSide.{
  is_offer_received, relay_event, relay_to_client, node_connected, announce_session,
  drop_unannounced, node_sessions,
}
use virgo_fleet.Webrtc.Events.{node_relays, node_connects}
use virgo_fleet.Webrtc.Lookups.{session_at, at-store}
use virgo_fleet.Webrtc.Consistency.Handlers.{drop_stale_resume_sessions}
use virgo_fleet.Webrtc.Handshake.{
  IsPresent, QuietIn, PresentIn, IsPresent-IsQuiet, forget_session-QuietIn, close_session-QuietIn,
  refresh_orphan_state-PresentIn, Moves, stayed, answered, established, IsQuiet-Moves, start_quiet,
}

is_offer_received_lem : (x : SessionState) → is_offer_received x ≡ true → x ≡ offer_received
is_offer_received_lem offer_received h = refl
is_offer_received_lem _ h = cc

transition_answered :
    (now : ℕ) (t : Session)
    → is_offer_received t.state ≡ true
    → (transition_session now SessionState.answered t).state ≡ SessionState.answered
unfolding transition_session
transition_answered now t h = rw (is_offer_received_lem t.state h) refl

transition_connected :
    (now : ℕ) (t : Session)
    → ((transition_session now SessionState.connected t).state ≡ SessionState.connected)
      ⊎ ((transition_session now SessionState.connected t).state ≡ t.state)
unfolding transition_session
transition_connected now t = ground arith

module _ (w : Sockets) (now n : ℕ) (j : ℕ) (s : Session) where
  relay_event_Moves :
      (event : NodeEvent) (id payload : ℕ) (t : Session) (st : Signal)
      → session_at id st ≡ some t
      → w.node_of n ≡ t.node_id
      → session_at j st ≡ some s
      → Moves w
          (node_relays n event id payload)
          j
          s
          (session_at j (relay_event w now n event id payload t st))
  unfolding relay_event
  relay_event_Moves answer id payload t st e own h = elim (Bool-cases (is_offer_received t.state)) [
    | inr no_offer ↦ rw no_offer (stayed s h refl)
    | inl offer ↦ rw offer (elim (Bool-cases (id == j)) [
      | inr other ↦
          stayed s (at-store j id (transition_session now SessionState.answered t) st ∙ rw other h)
            refl
      | inl hit ↦
          let same_id : id ≡ j = ground arith in
          let same_session : t ≡ s = ground (arith, same_id) in
          answered (transition_session now SessionState.answered t) n payload
            (at-store j id (transition_session now SessionState.answered t) st ∙ rw hit refl)
            (ap (λ x. node_relays n answer x payload) same_id)
            (own ∙ ap (λ (x : Session). x.node_id) same_session)
            (ap (λ (x : Session). x.state) (sym same_session) ∙ is_offer_received_lem t.state offer)
            (transition_answered now t offer)
    ])
  ]
  relay_event_Moves candidate id payload t st e own h = stayed s h refl
  relay_event_Moves close id payload t st e own h =
      IsQuiet-Moves _ _ _ _ _ (forget_session-QuietIn s j id _ (start_quiet j s st h))
  relay_event_Moves error id payload t st e own h =
      IsQuiet-Moves _ _ _ _ _ (forget_session-QuietIn s j id _ (start_quiet j s st h))

  pub relay_to_client_Moves :
      (event : NodeEvent) (id payload : ℕ) (st : Signal)
      → session_at j st ≡ some s
      → Moves w
          (node_relays n event id payload)
          j
          s
          (session_at j (relay_to_client w now n event id payload st))
  unfolding relay_to_client
  relay_to_client_Moves event id payload st h =
      let e = node_relays n event id payload in
      let P : Signal → Type 0 = λ x. Moves w e j s (session_at j x) in
      Option_keeps P (lookup id st.sessions) _ _ (λ _. stayed s h refl)
        λ t found.
          if_keeps P (t.node_id == w.node_of n) _ _
            (λ own. relay_event_Moves event id payload t st found (ground arith) h)
            (λ _. stayed s h refl)

  pub node_connected_Moves :
      (id : ℕ) (st : Signal)
      → session_at j st ≡ some s
      → Moves w (node_connects n id) j s (session_at j (node_connected w now n id st))
  unfolding node_connected
  node_connected_Moves id st h =
      let e = node_connects n id in
      let P : Signal → Type 0 = λ x. Moves w e j s (session_at j x) in
      Option_keeps P (lookup id st.sessions) _ _ (λ _. stayed s h refl)
        λ t found.
          if_keeps P (t.node_id == w.node_of n) _ _
            (λ own. elim (Bool-cases (id == j)) [
              | inr other ↦ stayed s (at-store j id _ st ∙ rw other h) refl
              | inl hit ↦
                  let same_id : id ≡ j = ground arith in
                  let same_session : t ≡ s = ground (arith, same_id) in
                  let u : Session = record (transition_session now SessionState.connected t) {
                    negotiation_timer = false;
                  } in
                  let there : session_at j (store id u st) ≡ some u =
                    at-store j id u st ∙ rw hit refl in
                  elim (transition_connected now t) [
                    | inl c ↦
                        established u n there (ap (λ x. node_connects n x) same_id)
                          (ground (arith, same_session)) c
                    | inr c ↦ stayed u there (c ∙ ap (λ (x : Session). x.state) same_session)
                  ]
            ])
            (λ _. stayed s h refl)

  pub settle_resume-PresentIn :
      (id node_id : ℕ) (a b : Option ℕ) (st : Signal)
      → session_at id st ≡ none
      → PresentIn s j st
      → PresentIn s j (settle_resume w now id node_id a b st)
  unfolding settle_resume adopt_session add_session drop_pending_resume
  settle_resume-PresentIn id node_id (some a) (some b) st fresh p =
      rw (lookup-insert id j _ st.sessions) (
        if_keeps (IsPresent s) (id == j) _ (session_at j st) (λ hit. absurd (rw (gone hit) at p))
          (λ _. p))
    where
      gone : (id == j) ≡ true → session_at j st ≡ none
      gone hit = ground arith
  settle_resume-PresentIn id node_id a b st fresh p = p

  announce_session-PresentIn :
      (id : ℕ) (st : Signal) → PresentIn s j st → PresentIn s j (announce_session w now n id st)
  unfolding announce_session offer_resume_node
  announce_session-PresentIn id st p =
      Option_keeps (PresentIn s j) (lookup id st.sessions) _ _
        (λ e.
          settle_resume-PresentIn id (w.node_of n) _ _ (drop_stale_resume id (w.node_of n) st)
            (rw (drop_stale_resume_sessions id (w.node_of n) st) e)
            (rw (drop_stale_resume_sessions id (w.node_of n) st) p))
        λ t e.
          if_keeps (PresentIn s j) (t.node_id == w.node_of n) _ _
            (λ _. refresh_orphan_state-PresentIn s j w id t _ st e refl p) (λ _. p)

  drop_unannounced-QuietIn :
      (announced : List ℕ) (id : ℕ) (st : Signal)
      → QuietIn s j st
      → QuietIn s j (drop_unannounced w now n announced id st)
  unfolding drop_unannounced
  drop_unannounced-QuietIn announced id st q =
      Option_keeps (QuietIn s j) (lookup id st.sessions) _ _ (λ _. q)
        λ t e.
          if_keeps (QuietIn s j) (is_connected t.state && not (has announced id)) _ _
            (λ _. close_session-QuietIn s j w id _ _ st q) (λ _. q)

  pub node_sessions-QuietIn :
      (ids : List ℕ) (st : Signal) → PresentIn s j st → QuietIn s j (node_sessions w now n ids st)
  unfolding node_sessions
  node_sessions-QuietIn ids st p =
      let announced = each add ids [] in
      let resumed = each (announce_session w now n) announced st in
      each_inv (QuietIn s j) (drop_unannounced w now n announced)
        (drop_unannounced-QuietIn announced) (members (w.node_of n) resumed.by_node) resumed
        (IsPresent-IsQuiet s (session_at j resumed) (
          each_inv (PresentIn s j) (announce_session w now n) announce_session-PresentIn announced
            st p))
