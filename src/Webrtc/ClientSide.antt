-- ===== src/Webrtc/ClientSide.antt =====
-- src/utils/webrtc_signal.js, lines 288 to 460: what a browser's socket may say. A request for a
-- session is in two parts, before and after the database has answered.
use virgo_fleet.Base.{
  ℕ, Bool, true, false, ◌&&◌, not, List, [], ◌∷◌, Option, none, some, ◌==◌, leb, same,
  if◌then◌else◌, each, lookup, members,
}
use virgo_fleet.Webrtc.Index.{index_add, index_remove}
use virgo_fleet.Webrtc.State.{
  SessionState, requested, open_sent, offer_received, is_connected, Session, PendingResume,
  negotiation_timeout, opened, offered, trickled, closes, too_many_sessions, node_is_offline,
  not_supported, access_denied, not_registered, could_not_start, session_id_required,
  unknown_session, succeeded, started, failed, to_node, ack, disconnect, Sockets, Signal, emit,
  transition_session,
}
use virgo_fleet.Webrtc.Sessions.{
  registered, forget_session, count_sessions_for_client, store, add_session,
  reassign_session_client, tell_session_node, close_session, refresh_orphan_state,
  offer_resume_client,
}

abbrev pub max_sessions_per_socket : ℕ
max_sessions_per_socket = 4

abbrev pub is_open_sent : SessionState → Bool
is_open_sent open_sent = true
is_open_sent _ = false

-- What the database says of a request: access to the node, and the node's token; none if it throws.
pub record DbAnswer : Type 0 where
  pub allowed : Bool
  pub node_token : Option ℕ

-- What a new session is given: a random id, the ICE servers, and the token that is minted from the
-- node's registration token (src/utils/turn.js, src/utils/node_authz_token.js).
pub record Grant : Type 0 where
  pub session_id : ℕ
  pub servers : ℕ
  pub mint : ℕ → ℕ

module _ (w : Sockets) (client node_id : ℕ) where
  -- `handleSessionRequest` up to its `await`. The flag says whether it goes on.
  unfoldable pub request_begin : Signal → Signal × Bool
  request_begin st =
      if leb max_sessions_per_socket (count_sessions_for_client client st)
      then (emit (ack client (failed too_many_sessions)) st, false)
      else if not (registered w node_id)
      then (emit (ack client (failed node_is_offline)) st, false)
      else if not (w.supports_webrtc node_id)
      then (emit (ack client (failed not_supported)) st, false)
      else (st, true)

  module _ (now : ℕ) (grant : Grant) where
    abbrev pub new_session : ℕ → Session
    new_session node_socket = record {
      client_socket = client;
      node_socket = node_socket;
      node_id = node_id;
      user_id = w.client_user client;
      state = requested;
      state_changed_at = now;
      negotiation_timer = false;
      orphan_timer = false;
    }

    -- The end of `handleSessionRequest`, once every guard has passed.
    unfoldable pub open_session : ℕ → ℕ → Signal → Signal
    open_session node_socket token st =
        let id = grant.session_id in
        let s = new_session node_socket in
        let added =
          emit (to_node node_socket (opened id (grant.mint token) grant.servers))
            (add_session id s st) in
        emit (ack client (started id (grant.mint token) grant.servers)) (
          store id (record (transition_session now open_sent s) { negotiation_timer = true }) added)

    -- `getNodeSocket(nodeId)`, again after the `await`.
    unfoldable pub open_on : Option ℕ → ℕ → Signal → Signal
    open_on none token st = emit (ack client (failed node_is_offline)) st
    open_on (some n) token st =
        if w.node_connected n
        then open_session n token st
        else emit (ack client (failed node_is_offline)) st

    unfoldable pub open_with : Option ℕ → Signal → Signal
    open_with none st = emit (ack client (failed not_registered)) st
    open_with (some token) st =
        if not (w.client_connected client)
        then st
        else if leb max_sessions_per_socket (count_sessions_for_client client st)
        then emit (ack client (failed too_many_sessions)) st
        else open_on (w.registry node_id) token st

    -- `handleSessionRequest` after its `await`, and the `catch` of its caller.
    unfoldable pub request_end : Option DbAnswer → Signal → Signal
    request_end none st = emit (ack client (failed could_not_start)) st
    request_end (some answer) st =
        if not answer.allowed
        then emit (disconnect client) (emit (ack client (failed access_denied)) st)
        else open_with answer.node_token st

  -- 'webrtc:offer'
  unfoldable pub client_offer : ℕ → ℕ → ℕ → Signal → Signal
  client_offer now id payload st = elim (lookup id st.sessions) [
    | none ↦ st
    | some s ↦
        if s.client_socket == client && is_open_sent s.state
        then tell_session_node w s (offered id payload)
            (store id (transition_session now offer_received s) st)
        else st
  ]

  -- 'webrtc:candidate'
  unfoldable pub client_candidate : ℕ → ℕ → Signal → Signal
  client_candidate id payload st = elim (lookup id st.sessions) [
    | none ↦ st
    | some s ↦
        if s.client_socket == client then tell_session_node w s (trickled id payload) st else st
  ]

  -- 'webrtc:close'
  unfoldable pub client_close : ℕ → Signal → Signal
  client_close id st = elim (lookup id st.sessions) [
    | none ↦ st
    | some s ↦
        if s.client_socket == client
        then forget_session id (tell_session_node w s (closes id none) st)
        else st
  ]

  -- The guard of 'webrtc:session:resume' on a session that is known.
  unfoldable pub may_resume : Session → Bool
  may_resume s =
      s.node_id == node_id && same s.user_id (w.client_user client) && is_connected s.state

  -- 'webrtc:session:resume'; 0 stands for a session id that is missing or empty.
  unfoldable pub client_resume : ℕ → ℕ → Signal → Signal
  client_resume now id st =
      if id == 0
      then emit (ack client (failed session_id_required)) st
      else elim (lookup id st.sessions) [
        | none ↦ emit (ack client succeeded) (offer_resume_client w now id node_id client st)
        | some s ↦
            if may_resume s
            then emit (ack client succeeded) (
                refresh_orphan_state w (record s { client_socket = client }) id
                  (reassign_session_client s id client st))
            else emit (ack client (failed unknown_session)) st
      ]

  -- The connection handler itself.
  unfoldable pub client_connect : Signal → Signal
  client_connect st = record st {
    signal_sockets = index_add (some node_id) client st.signal_sockets;
  }

  -- One session of a socket that disconnects: it ends unless it is established.
  unfoldable pub leave_session : ℕ → Signal → Signal
  leave_session id st = elim (lookup id st.sessions) [
    | none ↦ st
    | some s ↦
        if is_connected s.state
        then refresh_orphan_state w s id st
        else forget_session id (tell_session_node w s (closes id none) st)
  ]

  -- The loop over the pending resumes: this socket's half goes, and with it a resume that has no
  -- other half.
  unfoldable pub drop_client_half : List (ℕ × PendingResume) → List (ℕ × PendingResume)
  drop_client_half [] = []
  drop_client_half ((id, p) ∷ rest) =
      let kept = drop_client_half rest in
      if same p.client_socket (some client)
      then elim p.node_socket [
        | none ↦ kept
        | some n ↦ (id, record p { client_socket = none }) ∷ kept
      ]
      else (id, p) ∷ kept

  -- 'disconnect'
  unfoldable pub client_disconnect : Signal → Signal
  client_disconnect st =
      let unlisted = record st {
        signal_sockets = index_remove (some node_id) client st.signal_sockets;
      } in
      let left = each leave_session (members client unlisted.by_client) unlisted in
      record left { pending = drop_client_half left.pending }

-- The body of a negotiation timer.
unfoldable pub negotiation_timed_out : Sockets → ℕ → Signal → Signal
negotiation_timed_out w id st = elim (lookup id st.sessions) [
  | none ↦ st
  | some s ↦
      if is_connected s.state then st else close_session w id (some negotiation_timeout) true st
]
