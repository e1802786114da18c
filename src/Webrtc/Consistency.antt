-- ===== src/Webrtc/Consistency.antt =====
-- src/utils/webrtc_signal.js: the reverse indexes and the sessions always agree.
pub mod Handlers
pub mod NodeSide
pub mod ClientSide
pub mod Teardown
pub mod Steps
use virgo_fleet.Base.{
  ℕ, Bool, true, false, not, ◌&&◌, ◌||◌, ◌≡◌, refl, sym, ◌∙◌, ap, ◌⊎◌, inl, inr, List, [], ◌∷◌,
  Option, none, some, arith, ◌==◌, same, if◌then◌else◌, each, each_inv, add, has, lookup, insert,
  erase, members, Option-cases, Bool-cases, lookup-insert,
}
use virgo_fleet.Webrtc.Index.{Tracks, Tracks-insert, Tracks-erase, Tracks-update, Tracks-move}
use virgo_fleet.Webrtc.State.{Session, Reason, Message, Effect, Sockets, Signal, emit, start}
use virgo_fleet.Webrtc.Sessions.{
  forget_session, add_session, store, reassign_session_client, tell_session_node, close_session,
  refresh_orphan_state, adopt_session,
}

abbrev pub node_key : Session → Option ℕ
node_key s = some s.node_id

abbrev pub user_key : Session → Option ℕ
user_key s = s.user_id

abbrev pub client_key : Session → Option ℕ
client_key s = some s.client_socket

-- Each index holds a session id under a key exactly when that session has that key.
pub record IsIndexed (st : Signal) : Type 0 where
  pub nodes : Tracks node_key st.sessions st.by_node
  pub users : Tracks user_key st.sessions st.by_user
  pub clients : Tracks client_key st.sessions st.by_client

pub start-IsIndexed : IsIndexed start
unfolding lookup
start-IsIndexed = record { nodes = λ k z. refl; users = λ k z. refl; clients = λ k z. refl }

pub emit-IsIndexed : (e : Effect) (st : Signal) → IsIndexed st → IsIndexed (emit e st)
emit-IsIndexed e st i = record { nodes = i.nodes; users = i.users; clients = i.clients }

pub forget_session-IsIndexed :
    (id : ℕ) (st : Signal) → IsIndexed st → IsIndexed (forget_session id st)
unfolding forget_session
forget_session-IsIndexed id st i = elim (Option-cases (lookup id st.sessions)) [
  | inl e ↦ rw (e, forget_session) i
  | inr (s, e) ↦
      rw (e, forget_session)
        (record {
          nodes = Tracks-erase node_key id s st.sessions st.by_node e i.nodes;
          users = Tracks-erase user_key id s st.sessions st.by_user e i.users;
          clients = Tracks-erase client_key id s st.sessions st.by_client e i.clients;
        })
]

pub add_session-IsIndexed :
    (id : ℕ) (s : Session) (st : Signal)
    → lookup id st.sessions ≡ none
    → IsIndexed st
    → IsIndexed (add_session id s st)
unfolding add_session
add_session-IsIndexed id s st e i = record {
  nodes = Tracks-insert node_key id s st.sessions st.by_node e i.nodes;
  users = Tracks-insert user_key id s st.sessions st.by_user e i.users;
  clients = Tracks-insert client_key id s st.sessions st.by_client e i.clients;
}

-- A session object that changes keeps its keys.
abbrev pub SameKeys : Session → Session → Type 0
SameKeys s t = (node_key t ≡ node_key s) × (user_key t ≡ user_key s) × (client_key t ≡ client_key s)

pub store-IsIndexed :
    (id : ℕ) (s t : Session) (st : Signal)
    → lookup id st.sessions ≡ some s
    → SameKeys s t
    → IsIndexed st
    → IsIndexed (store id t st)
store-IsIndexed id s t st e k i = record {
  nodes = Tracks-update node_key id s t st.sessions st.by_node e k.0 i.nodes;
  users = Tracks-update user_key id s t st.sessions st.by_user e k.1 i.users;
  clients = Tracks-update client_key id s t st.sessions st.by_client e k.2 i.clients;
}

pub reassign_session_client-IsIndexed :
    (s : Session) (id client : ℕ) (st : Signal)
    → lookup id st.sessions ≡ some s
    → IsIndexed st
    → IsIndexed (reassign_session_client s id client st)
unfolding reassign_session_client
reassign_session_client-IsIndexed s id client st e i =
    let t : Session = record s { client_socket = client } in
    record {
      nodes = Tracks-update node_key id s t st.sessions st.by_node e refl i.nodes;
      users = Tracks-update user_key id s t st.sessions st.by_user e refl i.users;
      clients = Tracks-move client_key id s t st.sessions st.by_client e i.clients;
    }

-- To tell a node something changes nothing but the log.
pub tell_session_node-log :
    (w : Sockets) (s : Session) (message : Message) (st : Signal)
    → tell_session_node w s message st ≡ record st { log = (tell_session_node w s message st).log }
unfolding tell_session_node
tell_session_node-log w s message st = ground arith

pub tell_session_node-IsIndexed :
    (w : Sockets) (s : Session) (message : Message) (st : Signal)
    → IsIndexed st
    → IsIndexed (tell_session_node w s message st)
tell_session_node-IsIndexed w s message st i =
    rw (tell_session_node-log w s message st)
      (record { nodes = i.nodes; users = i.users; clients = i.clients })
