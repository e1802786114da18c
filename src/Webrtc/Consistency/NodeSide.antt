-- ===== src/Webrtc/Consistency/NodeSide.antt =====
-- src/utils/webrtc_signal.js: what a node says keeps the reverse indexes true.
use virgo_fleet.Base.{
  ℕ, refl, not, ◌&&◌, List, [], ◌==◌, each, each_inv, add, has, lookup, members, if_keeps,
  Option_keeps,
}
use virgo_fleet.Webrtc.State.{
  Session, NodeEvent, answer, candidate, close, error, answered, connected, is_connected, Sockets,
  Signal,
}
use virgo_fleet.Webrtc.NodeSide.{
  is_offer_received, relay_event, relay_to_client, node_connected, announce_session,
  drop_unannounced, node_sessions,
}
use virgo_fleet.Base.{◌≡◌, some}
use virgo_fleet.Webrtc.Consistency.{
  IsIndexed, emit-IsIndexed, forget_session-IsIndexed, store-IsIndexed,
}
use virgo_fleet.Webrtc.Consistency.Handlers.{
  close_session-IsIndexed, transition_session-SameKeys, refresh_orphan_state-IsIndexed,
  offer_resume_node-IsIndexed,
}

module _ (w : Sockets) (now n : ℕ) where
  relay_event-IsIndexed :
      (event : NodeEvent) (id payload : ℕ) (s : Session) (st : Signal)
      → lookup id st.sessions ≡ some s
      → IsIndexed st
      → IsIndexed (relay_event w now n event id payload s st)
  unfolding relay_event
  relay_event-IsIndexed answer id payload s st e i =
      if_keeps IsIndexed (is_offer_received s.state) _ _
        (λ _.
          emit-IsIndexed _ _
            (store-IsIndexed id s _ st e (transition_session-SameKeys now answered s) i))
        (λ _. i)
  relay_event-IsIndexed candidate id payload s st e i = emit-IsIndexed _ st i
  relay_event-IsIndexed close id payload s st e i =
      forget_session-IsIndexed id _ (emit-IsIndexed _ st i)
  relay_event-IsIndexed error id payload s st e i =
      forget_session-IsIndexed id _ (emit-IsIndexed _ st i)

  pub relay_to_client-IsIndexed :
      (event : NodeEvent) (id payload : ℕ) (st : Signal)
      → IsIndexed st
      → IsIndexed (relay_to_client w now n event id payload st)
  unfolding relay_to_client
  relay_to_client-IsIndexed event id payload st i =
      Option_keeps IsIndexed (lookup id st.sessions) _ _ (λ _. i)
        λ s e.
          if_keeps IsIndexed (s.node_id == w.node_of n) _ _
            (λ _. relay_event-IsIndexed event id payload s st e i) (λ _. i)

  pub node_connected-IsIndexed :
      (id : ℕ) (st : Signal) → IsIndexed st → IsIndexed (node_connected w now n id st)
  unfolding node_connected
  node_connected-IsIndexed id st i =
      Option_keeps IsIndexed (lookup id st.sessions) _ _ (λ _. i)
        λ s e.
          if_keeps IsIndexed (s.node_id == w.node_of n) _ _
            (λ _. store-IsIndexed id s _ st e (transition_session-SameKeys now connected s) i)
            (λ _. i)

  announce_session-IsIndexed :
      (id : ℕ) (st : Signal) → IsIndexed st → IsIndexed (announce_session w now n id st)
  unfolding announce_session
  announce_session-IsIndexed id st i =
      Option_keeps IsIndexed (lookup id st.sessions) _ _
        (λ e. offer_resume_node-IsIndexed w now id (w.node_of n) n st e i)
        λ s e.
          if_keeps IsIndexed (s.node_id == w.node_of n) _ _
            (λ _.
              emit-IsIndexed _ _
                (refresh_orphan_state-IsIndexed w s _ id st e (refl, refl, refl) i))
            (λ _. emit-IsIndexed _ st i)

  drop_unannounced-IsIndexed :
      (announced : List ℕ) (id : ℕ) (st : Signal)
      → IsIndexed st
      → IsIndexed (drop_unannounced w now n announced id st)
  unfolding drop_unannounced
  drop_unannounced-IsIndexed announced id st i =
      Option_keeps IsIndexed (lookup id st.sessions) _ _ (λ _. i)
        λ s e.
          if_keeps IsIndexed (is_connected s.state && not (has announced id)) _ _
            (λ _. close_session-IsIndexed w id _ _ st i) (λ _. i)

  pub node_sessions-IsIndexed :
      (ids : List ℕ) (st : Signal) → IsIndexed st → IsIndexed (node_sessions w now n ids st)
  unfolding node_sessions
  node_sessions-IsIndexed ids st i =
      let announced = each add ids [] in
      let resumed = each (announce_session w now n) announced st in
      each_inv IsIndexed (drop_unannounced w now n announced) (drop_unannounced-IsIndexed announced)
        (members (w.node_of n) resumed.by_node) resumed
        (each_inv IsIndexed (announce_session w now n) announce_session-IsIndexed announced st i)
