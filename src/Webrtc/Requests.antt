-- ===== src/Webrtc/Requests.antt =====
-- src/utils/webrtc_signal.js, lines 288 to 362: when a request is given a session.
use virgo_fleet.Base.{
  ℕ, suc, ◌≡◌, refl, ◌≤◌, Bool, true, false, not, ◌&&◌, List, [], ◌∷◌, Option, none, some, arith,
  leb, if◌then◌else◌, add, length, length-append, insert, members, lookup-insert, if_keeps, is_some,
}
use virgo_fleet.Webrtc.Index.{Index, index_add}
use virgo_fleet.Webrtc.State.{
  Session, Sockets, Signal, open_sent, emit, transition_session, ack, failed, access_denied,
  disconnect,
}
use virgo_fleet.Webrtc.Sessions.{add_session, count_sessions_for_client, registered}
use virgo_fleet.Webrtc.ClientSide.{
  DbAnswer, Grant, max_sessions_per_socket, new_session, open_session, open_on, open_with,
  request_end,
}
use virgo_fleet.Webrtc.Lookups.{session_at}

length-add : (x : ℕ) (xs : List ℕ) → length (add x xs) ≤ suc (length xs)
unfolding add
length-add x xs = ground (arith, length-append xs (x ∷ []))

members-index_add :
    (k z : ℕ) (map : Index) → members k (index_add (some k) z map) ≡ add z (members k map)
unfolding index_add
members-index_add k z map = ground (arith, lookup-insert k k (add z (members k map)) map)

module _ (w : Sockets) (client node_id now : ℕ) (grant : Grant) where
  abbrev Bounded : Signal → Type 0
  Bounded st = count_sessions_for_client client st ≤ max_sessions_per_socket

  open_session-Bounded :
      (n token : ℕ) (st : Signal)
      → leb max_sessions_per_socket (count_sessions_for_client client st) ≡ false
      → Bounded (open_session w client node_id now grant n token st)
  unfolding open_session add_session count_sessions_for_client
  open_session-Bounded n token st h =
      rw (members-index_add client grant.session_id st.by_client)
        (ground (arith, length-add grant.session_id (members client st.by_client)))

  open_on-Bounded :
      (o : Option ℕ) (token : ℕ) (st : Signal)
      → leb max_sessions_per_socket (count_sessions_for_client client st) ≡ false
      → Bounded (open_on w client node_id now grant o token st)
  unfolding open_on count_sessions_for_client
  open_on-Bounded none token st h = ground arith
  open_on-Bounded (some n) token st h =
      if_keeps Bounded (w.node_connected n) _ _ (λ _. open_session-Bounded n token st h)
        (λ _. ground arith)

  open_with-Bounded :
      (o : Option ℕ) (st : Signal)
      → Bounded st
      → Bounded (open_with w client node_id now grant o st)
  unfolding open_with count_sessions_for_client
  open_with-Bounded none st b = b
  open_with-Bounded (some token) st b =
      if_keeps Bounded (not (w.client_connected client)) _ _ (λ _. b)
        λ _.
          if_keeps Bounded (leb max_sessions_per_socket (count_sessions_for_client client st)) _ _
            (λ _. b) λ h. open_on-Bounded (w.registry node_id) token st h

  -- A request never takes a browser socket past its four sessions: what was counted before the
  -- database was asked is counted again.
  pub request_end-Bounded :
      (answer : Option DbAnswer) (st : Signal)
      → Bounded st
      → Bounded (request_end w client node_id now grant answer st)
  unfolding request_end count_sessions_for_client
  request_end-Bounded none st b = b
  request_end-Bounded (some answer) st b =
      if_keeps Bounded (not answer.allowed) _ _ (λ _. b)
        λ _. open_with-Bounded answer.node_token st b

  -- Whether the second half of a request is granted a session.
  abbrev pub granted : Option DbAnswer → Signal → Bool
  granted none st = false
  granted (some answer) st =
      answer.allowed
      && is_some answer.node_token
      && w.client_connected client
      && not (leb max_sessions_per_socket (count_sessions_for_client client st))
      && registered w node_id

  open_session_granted :
      (n token : ℕ) (st : Signal)
      → is_some (session_at grant.session_id (open_session w client node_id now grant n token st))
        ≡ true
  unfolding open_session add_session
  open_session_granted n token st =
      let fresh_one : Session = new_session w client node_id now grant n in
      let sent : Session = record (transition_session now open_sent fresh_one) {
        negotiation_timer = true;
      } in
      ground (
        arith,
        lookup-insert grant.session_id grant.session_id sent
            (insert grant.session_id fresh_one st.sessions),
      )

  open_on_granted :
      (token : ℕ) (st : Signal)
      → session_at grant.session_id st ≡ none
      → is_some (
          session_at grant.session_id
            (open_on w client node_id now grant (w.registry node_id) token st))
        ≡ registered w node_id
  unfolding open_on registered
  open_on_granted token st fresh = go (w.registry node_id)
    where
      go :
          (o : Option ℕ)
          → is_some (session_at grant.session_id (open_on w client node_id now grant o token st))
            ≡ (elim o [ none ↦ false | some n ↦ w.node_connected n ])
      go none = rw fresh refl
      go (some n) = ground (arith, open_session_granted n token st, fresh)

  -- Once the database has answered, a request makes a session exactly when the user may access the
  -- node, the node has a token, the browser is still connected, it has fewer than four sessions,
  -- and the node is still online. Its id is not in use before.
  pub request_end-granted :
      (answer : Option DbAnswer) (st : Signal)
      → session_at grant.session_id st ≡ none
      → is_some (session_at grant.session_id (request_end w client node_id now grant answer st))
        ≡ granted answer st
  unfolding request_end open_with
  request_end-granted none st fresh = rw fresh refl
  request_end-granted (some answer) st fresh = go answer.node_token
    where
      on_node :
          (token : ℕ)
          → is_some (
              session_at grant.session_id
                (open_on w client node_id now grant (w.registry node_id) token st))
            ≡ registered w node_id
      on_node token = open_on_granted token st fresh

      go :
          (o : Option ℕ)
          → is_some (
              session_at grant.session_id (
                if not answer.allowed
                then emit (disconnect client) (emit (ack client (failed access_denied)) st)
                else open_with w client node_id now grant o st))
            ≡ (answer.allowed
                && is_some o
                && w.client_connected client
                && not (leb max_sessions_per_socket (count_sessions_for_client client st))
                && registered w node_id)
      go none = ground (arith, fresh)
      go (some token) = ground (arith, fresh, on_node token)
