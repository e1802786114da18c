-- ===== src/Webrtc/Consistency/Teardown.antt =====
-- src/utils/webrtc_signal.js: the teardown functions keep the reverse indexes true.
use virgo_fleet.Base.{
  ℕ, refl, Option, none, some, ◌==◌, same, List, each_inv, lookup, members, if_keeps, Option_keeps,
}
use virgo_fleet.Webrtc.State.{Session, is_connected, Sockets, Signal}
use virgo_fleet.Webrtc.Teardown.{
  leave_node, close_node_webrtc_sessions, close_if_on_node, disconnect_if_user,
  close_node_webrtc_sessions_for_user, revoked, close_if_revoked,
  close_webrtc_sessions_for_fleet_sessions,
}
use virgo_fleet.Webrtc.Consistency.{IsIndexed, emit-IsIndexed}
use virgo_fleet.Webrtc.Consistency.Handlers.{
  close_session-IsIndexed, refresh_orphan_state-IsIndexed,
}

module _ (w : Sockets) where
  leave_node-IsIndexed : (n id : ℕ) (st : Signal) → IsIndexed st → IsIndexed (leave_node w n id st)
  unfolding leave_node
  leave_node-IsIndexed n id st i =
      Option_keeps IsIndexed (lookup id st.sessions) _ _ (λ _. i)
        λ s e.
          if_keeps IsIndexed (s.node_socket == n) _ _
            (λ _.
              if_keeps IsIndexed (is_connected s.state) _ _
                (λ _. refresh_orphan_state-IsIndexed w s s id st e (refl, refl, refl) i)
                (λ _. close_session-IsIndexed w id _ _ st i))
            (λ _. i)

  pub close_node_webrtc_sessions-IsIndexed :
      (node_id n : ℕ) (st : Signal)
      → IsIndexed st
      → IsIndexed (close_node_webrtc_sessions w node_id n st)
  unfolding close_node_webrtc_sessions
  close_node_webrtc_sessions-IsIndexed node_id n st i =
      let kept =
        each_inv IsIndexed (leave_node w n) (leave_node-IsIndexed n) (members node_id st.by_node) st
          i in
      record { nodes = kept.nodes; users = kept.users; clients = kept.clients }

  pub close_if_on_node-IsIndexed :
      (node_id id : ℕ) (st : Signal) → IsIndexed st → IsIndexed (close_if_on_node w node_id id st)
  unfolding close_if_on_node
  close_if_on_node-IsIndexed node_id id st i =
      Option_keeps IsIndexed (lookup id st.sessions) _ _ (λ _. i)
        λ s e.
          if_keeps IsIndexed (s.node_id == node_id) _ _ (λ _. close_session-IsIndexed w id _ _ st i)
            (λ _. i)

  disconnect_if_user-IsIndexed :
      (user c : ℕ) (st : Signal) → IsIndexed st → IsIndexed (disconnect_if_user w user c st)
  unfolding disconnect_if_user
  disconnect_if_user-IsIndexed user c st i =
      if_keeps IsIndexed (same (w.client_user c) (some user)) _ _ (λ _. emit-IsIndexed _ st i)
        (λ _. i)

  pub close_node_webrtc_sessions_for_user-IsIndexed :
      (node_id : ℕ) (user : Option ℕ) (st : Signal)
      → IsIndexed st
      → IsIndexed (close_node_webrtc_sessions_for_user w node_id user st)
  unfolding close_node_webrtc_sessions_for_user
  close_node_webrtc_sessions_for_user-IsIndexed node_id none st i = i
  close_node_webrtc_sessions_for_user-IsIndexed node_id (some user) st i =
      each_inv IsIndexed (disconnect_if_user w user) (disconnect_if_user-IsIndexed user) _ _ (
        each_inv IsIndexed (close_if_on_node w node_id) (close_if_on_node-IsIndexed node_id)
          (members user st.by_user) st i)

  close_if_revoked-IsIndexed :
      (ids : List ℕ) (entry : ℕ × Session) (st : Signal)
      → IsIndexed st
      → IsIndexed (close_if_revoked w ids entry st)
  unfolding close_if_revoked
  close_if_revoked-IsIndexed ids (id, s) st i =
      if_keeps IsIndexed (revoked w ids (w.client_session s.client_socket)) _ _
        (λ _. close_session-IsIndexed w id _ _ st i) (λ _. i)

  pub close_webrtc_sessions_for_fleet_sessions-IsIndexed :
      (ids : List ℕ) (st : Signal)
      → IsIndexed st
      → IsIndexed (close_webrtc_sessions_for_fleet_sessions w ids st)
  unfolding close_webrtc_sessions_for_fleet_sessions
  close_webrtc_sessions_for_fleet_sessions-IsIndexed ids st i =
      each_inv IsIndexed (close_if_revoked w ids) (close_if_revoked-IsIndexed ids) st.sessions st i
