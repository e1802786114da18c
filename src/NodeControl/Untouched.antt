-- ===== src/NodeControl/Untouched.antt =====
-- modules/node/index.js: the handlers that leave the peering of the nodes alone, in memory and in the
-- rows.
use virgo_fleet.Base.{
  ℕ, Bool, true, false, ◌&&◌, Option, none, some, List, [], ◌∷◌, ◌≡◌, refl, inl, inr, same,
  Option-cases, has, lookup, revise, lookup-revise, arith, ◌∙◌, if_keeps, Option_keeps,
}
use virgo_fleet.NodeControl.State.{
  Row, Hub, World, Effect, emit, UpdateKey, Updates, Pool, Viewer, PoolState, Change, Ups, Job,
  update_push, connectivity, last_seen,
}
use virgo_fleet.NodeControl.Reports.{
  broadcast_nodes_updated, report_updates, report_update, report_app_update_job, report_storage,
  report_ups, report_capabilities, ReportedState, ReportedProgress, same_signature, ups_signature,
}
use virgo_fleet.NodeControl.Notifications.{
  stored_keys, set_node_update_signature, set_node_storage_signature, push_updates, push_changes,
  notify_updates_available, notify_storage_health, update_keys, members_away, count, changes,
  recorded, get_node_storage_signature, pool_states, reported_pools,
}
use virgo_fleet.NodeControl.Events.{
  set_node_socket, disconnect_node, request_unregister, tell_viewers, handle_node_presence,
  lose_node, close_sessions, drop_node_state, handle_disconnect, handle_connection,
  set_node_domain_name, Admission, as_node, as_user, node_authentication_failed,
  authentication_required, as_unregistered_node,
}

-- `node.machineId` and `node.peers` of the row, where there is one.
abbrev pub machine_of : ℕ → List (ℕ × Row) → Option ℕ
machine_of n rows = elim (lookup n rows) [ none ↦ none | some row ↦ row.machine_id ]

abbrev pub peers_of : ℕ → List (ℕ × Row) → List ℕ
peers_of n rows = elim (lookup n rows) [ none ↦ [] | some row ↦ row.peers ]

pub record Untouched (st st' : Hub) : Type 0 where
  pub machine_ids : st'.machine_ids ≡ st.machine_ids
  pub node_ids : st'.node_ids ≡ st.node_ids
  pub peers : st'.peers ≡ st.peers
  pub row_machines : (n : ℕ) → machine_of n st'.rows ≡ machine_of n st.rows
  pub row_peers : (n : ℕ) → peers_of n st'.rows ≡ peers_of n st.rows

pub nothing : (st : Hub) → Untouched st st
nothing st = record {
  machine_ids = refl;
  node_ids = refl;
  peers = refl;
  row_machines = λ n. refl;
  row_peers = λ n. refl;
}

-- What is said outside leaves the state as it is.
pub emit-Untouched : (e : Effect) (s st : Hub) → Untouched s st → Untouched s (emit e st)
emit-Untouched e s st u = record {
  machine_ids = u.machine_ids;
  node_ids = u.node_ids;
  peers = u.peers;
  row_machines = u.row_machines;
  row_peers = u.row_peers;
}

-- The columns of a row after the rows are revised.
pub machine_of-revise :
    (f : ℕ → Row → Row) (n : ℕ) (rows : List (ℕ × Row))
    → machine_of n (revise f rows)
      ≡ elim (lookup n rows) [ none ↦ none | some row ↦ (f n row).machine_id ]
machine_of-revise f n rows = elim (Option-cases (lookup n rows)) [
  | inl e ↦ rw (machine_of, lookup-revise f n rows, e)
  | inr (r, e) ↦ rw (machine_of, lookup-revise f n rows, e)
]

pub peers_of-revise :
    (f : ℕ → Row → Row) (n : ℕ) (rows : List (ℕ × Row))
    → peers_of n (revise f rows) ≡ elim (lookup n rows) [ none ↦ [] | some row ↦ (f n row).peers ]
peers_of-revise f n rows = elim (Option-cases (lookup n rows)) [
  | inl e ↦ rw (peers_of, lookup-revise f n rows, e)
  | inr (r, e) ↦ rw (peers_of, lookup-revise f n rows, e)
]

-- Rows whose peering columns are as they were.
rows-Untouched :
    (f : ℕ → Row → Row) (s st : Hub)
    → ((k : ℕ) (r : Row) → ((f k r).machine_id ≡ r.machine_id) × ((f k r).peers ≡ r.peers))
    → Untouched s st
    → Untouched s (record st { rows = revise f st.rows })
rows-Untouched f s st h u = record {
  machine_ids = u.machine_ids;
  node_ids = u.node_ids;
  peers = u.peers;
  row_machines = λ n. machine_of-revise f n st.rows ∙ machine n ∙ u.row_machines n;
  row_peers = λ n. peers_of-revise f n st.rows ∙ listed n ∙ u.row_peers n;
}
  where
    machine :
        (n : ℕ)
        → elim (lookup n st.rows) [ none ↦ none | some row ↦ (f n row).machine_id ]
          ≡ machine_of n st.rows
    machine n = elim (Option-cases (lookup n st.rows)) [
      | inl e ↦ rw (machine_of, e)
      | inr (r, e) ↦ rw (machine_of, e) (h n r).0
    ]

    listed :
        (n : ℕ)
        → elim (lookup n st.rows) [ none ↦ [] | some row ↦ (f n row).peers ] ≡ peers_of n st.rows
    listed n = elim (Option-cases (lookup n st.rows)) [
      | inl e ↦ rw (peers_of, e)
      | inr (r, e) ↦ rw (peers_of, e) (h n r).1
    ]

pub broadcast-Untouched :
    (w : World) (node_id : ℕ) (s st : Hub)
    → Untouched s st
    → Untouched s (broadcast_nodes_updated w node_id st)
unfolding broadcast_nodes_updated
broadcast-Untouched w node_id s st u =
    Option_keeps (Untouched s) (w.members_of node_id) _ _ (λ _. u)
      (λ ids _. emit-Untouched _ s st u)

alike :
    (s st : Hub)
    → st.machine_ids ≡ s.machine_ids
    → st.node_ids ≡ s.node_ids
    → st.peers ≡ s.peers
    → st.rows ≡ s.rows
    → Untouched s st
alike s st a b c d = record {
  machine_ids = a;
  node_ids = b;
  peers = c;
  row_machines = λ n. rw d;
  row_peers = λ n. rw d;
}

-- The reports other than `node:peers`, before what is notified.
module _ (w : World) (node_id : ℕ) (s : Hub) where
  pub report_updates-Untouched : (u : Updates) → Untouched s (report_updates w node_id u s)
  unfolding report_updates
  report_updates-Untouched u = broadcast-Untouched w node_id s _ (alike s _ refl refl refl refl)

  pub report_update-Untouched :
      (state : ReportedState) (progress : Option ReportedProgress)
      → Untouched s (report_update w node_id state progress s)
  unfolding report_update
  report_update-Untouched state progress =
      broadcast-Untouched w node_id s _
        (alike s _ (ground arith) (ground arith) (ground arith) (ground arith))

  pub report_app_update_job-Untouched :
      (job : Option Job) → Untouched s (report_app_update_job w node_id job s)
  unfolding report_app_update_job
  report_app_update_job-Untouched none = nothing s
  report_app_update_job-Untouched (some job) =
      broadcast-Untouched w node_id s _ (alike s _ refl refl refl refl)

  pub report_storage-Untouched :
      (pools : Option (List Pool)) → Untouched s (report_storage w node_id pools s)
  unfolding report_storage
  report_storage-Untouched pools = broadcast-Untouched w node_id s _ (alike s _ refl refl refl refl)

  pub report_ups-Untouched : (u : Ups) → Untouched s (report_ups w node_id u s)
  unfolding report_ups
  report_ups-Untouched u =
      if_keeps (Untouched s)
        (same_signature (ups_signature (lookup node_id s.ups)) (ups_signature (some u))) _ _
        (λ _. alike s _ refl refl refl refl)
        (λ _. broadcast-Untouched w node_id s _ (alike s _ refl refl refl refl))

  pub report_capabilities-Untouched :
      (webrtc : Bool) → Untouched s (report_capabilities w node_id webrtc s)
  unfolding report_capabilities
  report_capabilities-Untouched webrtc =
      broadcast-Untouched w node_id s _ (alike s _ refl refl refl refl)

  pub set_node_domain_name-Untouched :
      (on_fleet_zone : Bool) → Untouched s (set_node_domain_name w node_id on_fleet_zone s)
  unfolding set_node_domain_name broadcast_nodes_updated
  set_node_domain_name-Untouched on_fleet_zone =
      alike s _ (ground arith) (ground arith) (ground arith) (ground arith)

-- What is notified.
module _ (w : World) (node_id : ℕ) (s st : Hub) (u : Untouched s st) where
  pub notify_updates-Untouched :
      (before : UpdateKey → UpdateKey → Bool) (updates : Updates)
      → Untouched s (notify_updates_available before w node_id updates st)
  unfolding notify_updates_available push_updates set_node_update_signature
  notify_updates-Untouched before updates =
      if_keeps (Untouched s) _ _ _
        (λ _.
          Option_keeps (Untouched s) (w.members_of node_id) _ _ (λ _. stored)
            λ ids _. pushed (members_away w.viewers ids))
        (λ _. stored)
    where
      current : List UpdateKey
      current = update_keys before updates (stored_keys node_id st.rows)

      stored : Untouched s (record st { rows = set_node_update_signature node_id current st.rows })
      stored = rows-Untouched _ s st (λ k r. (ground arith, ground arith)) u

      pushed :
          (ids : List ℕ)
          → Untouched s (elim ids [
            | [] ↦ record st { rows = set_node_update_signature node_id current st.rows }
            | i ∷ is ↦
                emit
                  (update_push (i ∷ is) node_id (count updates.system) (count updates.apps))
                  (record st { rows = set_node_update_signature node_id current st.rows })
          ])
      pushed [] = stored
      pushed (i ∷ is) = emit-Untouched _ s _ stored

  pub notify_storage-Untouched :
      (pools : Option (List Pool)) → Untouched s (notify_storage_health w node_id pools st)
  unfolding notify_storage_health set_node_storage_signature
  notify_storage-Untouched pools =
      if_keeps (Untouched s) _ _ _ (λ _. u)
        (λ _. pushed (changes (recorded (get_node_storage_signature node_id st.rows)) current))
    where
      current : List (ℕ × PoolState)
      current = pool_states (reported_pools pools) []

      stored : Untouched s (record st { rows = set_node_storage_signature node_id current st.rows })
      stored = rows-Untouched _ s st (λ k r. (ground arith, ground arith)) u

      pushed :
          (cs : List Change)
          → Untouched s (
              push_changes w node_id cs
                (record st { rows = set_node_storage_signature node_id current st.rows }))
      pushed [] = unfold push_changes in stored
      pushed (c ∷ cs) =
          unfold push_changes in
          Option_keeps (Untouched s) (w.members_of node_id) _ _ (λ _. stored)
            λ ids _. emit-Untouched _ s _ stored

tell_viewers-Untouched :
    (node_id : ℕ) (online : Bool) (ids : List ℕ) (vs : List Viewer) (s st : Hub)
    → Untouched s st
    → Untouched s (tell_viewers node_id online ids vs st)
unfolding tell_viewers
tell_viewers-Untouched node_id online ids [] s st u = u
tell_viewers-Untouched node_id online ids (v ∷ vs) s st u =
    tell_viewers-Untouched node_id online ids vs s _ (
      if_keeps (Untouched s) (v.is_user && v.is_authenticated && has ids v.user_id) _ _
        (λ _. emit-Untouched _ s st u) (λ _. u))

-- Connections, their ends, and the calls that only speak to a socket.
module _ (w : World) (node_id : ℕ) (s st : Hub) (u : Untouched s st) where
  presence-Untouched : (online : Bool) → Untouched s (handle_node_presence w node_id online st)
  unfolding handle_node_presence
  presence-Untouched online =
      Option_keeps (Untouched s) (w.members_of node_id) _ _ (λ _. noted)
        λ ids _.
          emit-Untouched _ s _ (tell_viewers-Untouched node_id online ids w.viewers s _ noted)
    where
      noted : Untouched s (emit (connectivity node_id online) (emit (last_seen node_id) st))
      noted =
          emit-Untouched (connectivity node_id online) s _
            (emit-Untouched (last_seen node_id) s st u)

  pub request_unregister-Untouched : Untouched s (request_unregister w node_id st)
  unfolding request_unregister
  request_unregister-Untouched =
      Option_keeps (Untouched s) (lookup node_id st.node_sockets) _ _ (λ _. u)
        λ socket _.
          if_keeps (Untouched s) (w.is_connected socket) _ _ (λ _. emit-Untouched _ s st u) (λ _. u)

  pub disconnect_node-Untouched : Untouched s (disconnect_node node_id st)
  unfolding disconnect_node
  disconnect_node-Untouched =
      Option_keeps (Untouched s) (lookup node_id st.node_sockets) _ _ (λ _. u)
        λ socket _. emit-Untouched _ s st u

pub handle_disconnect-Untouched :
    (w : World) (node_id socket : ℕ) (s : Hub) → Untouched s (handle_disconnect w node_id socket s)
unfolding handle_disconnect lose_node close_sessions drop_node_state
handle_disconnect-Untouched w node_id socket s =
    if_keeps (Untouched s) (same (lookup node_id s.node_sockets) (some socket))
      (lose_node w node_id (close_sessions node_id socket s)) (close_sessions node_id socket s)
      (λ _. presence-Untouched w node_id s _ (alike s _ refl refl refl refl) false)
      (λ _. alike s _ refl refl refl refl)

pub handle_connection-Untouched :
    (w : World) (a : Admission) (socket : ℕ) (s : Hub)
    → Untouched s (handle_connection w a socket s)
unfolding handle_connection set_node_socket
handle_connection-Untouched w (as_node node_id is_transient) socket s =
    if_keeps (Untouched s) is_transient _ _ (λ _. nothing s)
      (λ _.
        emit-Untouched _ s _
          (presence-Untouched w node_id s _ (alike s _ refl refl refl refl) true))
handle_connection-Untouched w as_user socket s = alike s _ refl refl refl refl
handle_connection-Untouched w node_authentication_failed socket s = nothing s
handle_connection-Untouched w authentication_required socket s = nothing s
handle_connection-Untouched w as_unregistered_node socket s = nothing s
