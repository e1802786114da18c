-- ===== src/NodeControl/Events.antt =====
-- modules/node/index.js: the middleware, the connection and the end of a socket, the requests of the
-- rest of the server, and the handlers as one step. A handler that awaits a query runs as one step.
use virgo_fleet.Base.{
  ℕ, Bool, true, false, not, ◌&&◌, Option, none, some, List, [], ◌∷◌, same, if◌then◌else◌, has,
  each, lookup, insert, erase,
}
use virgo_fleet.NodeControl.State.{
  Updates, UpdateKey, Job, Pool, Ups, Viewer, nodes_updated, node_status, last_seen, connectivity,
  webrtc_closed, socket_clients_dropped, node_clients_dropped, requests_failed, handlers_attached,
  reprobed, unregister_asked, socket_closed, inventory_sent, Hub, World, emit,
}
use virgo_fleet.NodeControl.Peers.{report_peers, save_peers, forget_node_peering}
use virgo_fleet.NodeControl.Reports.{
  broadcast_nodes_updated, ReportedState, ReportedProgress, report_updates, report_update,
  report_app_update_job, report_storage, report_ups, report_capabilities,
}
use virgo_fleet.NodeControl.Notifications.{notify_updates_available, notify_storage_health}

-- What a socket presents in its handshake. A secret is none where it is missing or empty.
pub record Handshake : Type 0 where
  pub is_node : Bool
  pub secret : Option ℕ
  pub is_transient : Bool

-- `socket.data` after the middleware.
pub data Admission : Type 0 where
  node_authentication_failed authentication_required : Admission
  as_node : (node_id : ℕ) (is_transient : Bool) → Admission
  as_unregistered_node as_user : Admission

-- `#setupMiddleware`. `getNodeByToken` and `authenticateSocketUser` are given by their answers.
unfoldable pub admit : (ℕ → Option ℕ) → Bool → Handshake → Admission
admit node_by_token is_authenticated h =
    if h.is_node
    then elim h.secret [
      | none ↦ as_unregistered_node
      | some secret ↦ elim (node_by_token secret) [
        | none ↦ node_authentication_failed
        | some node_id ↦ as_node node_id h.is_transient
      ]
    ]
    else (if is_authenticated then as_user else authentication_required)

unfoldable pub set_node_socket : ℕ → ℕ → Hub → Hub
set_node_socket node_id socket st =
    emit (handlers_attached socket)
      (record st { node_sockets = insert node_id socket st.node_sockets })

unfoldable pub is_node_online : ℕ → Hub → Bool
is_node_online node_id st = elim (lookup node_id st.node_sockets) [ none ↦ false | some s ↦ true ]

unfoldable pub disconnect_node : ℕ → Hub → Hub
disconnect_node node_id st = elim (lookup node_id st.node_sockets) [
  | none ↦ st
  | some socket ↦ emit (socket_closed socket) st
]

unfoldable pub request_unregister : World → ℕ → Hub → Hub
request_unregister w node_id st = elim (lookup node_id st.node_sockets) [
  | none ↦ st
  | some socket ↦ if w.is_connected socket then emit (unregister_asked socket) st else st
]

-- The body of the loop of `unregisterNodes`.
unfoldable pub unregister_node : World → ℕ → Hub → Hub
unfolding request_unregister forget_node_peering disconnect_node
unregister_node w node_id st =
    disconnect_node node_id (forget_node_peering node_id (request_unregister w node_id st))

unfoldable pub unregister_nodes : World → List ℕ → Hub → Hub
unfolding unregister_node
unregister_nodes w node_ids st = each (unregister_node w) node_ids st

-- The loop of `#handleNodePresence` over the sockets of the namespace.
unfoldable pub tell_viewers : ℕ → Bool → List ℕ → List Viewer → Hub → Hub
tell_viewers node_id online user_ids [] st = st
tell_viewers node_id online user_ids (v ∷ vs) st = tell_viewers node_id online user_ids vs (
    if v.is_user && v.is_authenticated && has user_ids v.user_id
    then emit (node_status v.socket node_id online) st
    else st)

unfoldable pub handle_node_presence : World → ℕ → Bool → Hub → Hub
unfolding tell_viewers
handle_node_presence w node_id online st =
    let noted = emit (connectivity node_id online) (emit (last_seen node_id) st) in
    elim (w.members_of node_id) [
      | none ↦ noted
      | some user_ids ↦
          emit (nodes_updated user_ids) (tell_viewers node_id online user_ids w.viewers noted)
    ]

-- The maps without what they hold of a node that is gone. Its peering stays.
unfoldable pub drop_node_state : ℕ → Hub → Hub
drop_node_state node_id st = record st {
  node_sockets = erase node_id st.node_sockets;
  updates = erase node_id st.updates;
  update = erase node_id st.update;
  app_update_jobs = erase node_id st.app_update_jobs;
  storage = erase node_id st.storage;
  ups = erase node_id st.ups;
  capabilities = erase node_id st.capabilities;
  on_fleet_zone = erase node_id st.on_fleet_zone;
}

-- The end of the socket that the node is registered with.
unfoldable pub lose_node : World → ℕ → Hub → Hub
unfolding drop_node_state handle_node_presence
lose_node w node_id st = handle_node_presence w node_id false (
    emit (requests_failed node_id)
      (emit (node_clients_dropped node_id) (drop_node_state node_id st)))

unfoldable pub close_sessions : ℕ → ℕ → Hub → Hub
close_sessions node_id socket st =
    emit (socket_clients_dropped socket) (emit (webrtc_closed node_id socket) st)

-- `disconnect` of a socket that has a node.
unfoldable pub handle_disconnect : World → ℕ → ℕ → Hub → Hub
unfolding lose_node close_sessions
handle_disconnect w node_id socket st =
    if same (lookup node_id st.node_sockets) (some socket)
    then lose_node w node_id (close_sessions node_id socket st)
    else close_sessions node_id socket st

-- `connection`, by what the middleware made of the socket.
unfoldable pub handle_connection : World → Admission → ℕ → Hub → Hub
unfolding set_node_socket handle_node_presence
handle_connection w (as_node node_id is_transient) socket st =
    if is_transient
    then st
    else emit (reprobed node_id)
        (handle_node_presence w node_id true (set_node_socket node_id socket st))
handle_connection w as_user socket st = emit (inventory_sent socket) st
handle_connection w _ socket st = st

-- `setNodeDomainName`, with the answer of `Boolean(zone) && DomainService.isOnZone(domainName)`.
unfoldable pub set_node_domain_name : World → ℕ → Bool → Hub → Hub
unfolding broadcast_nodes_updated
set_node_domain_name w node_id on_fleet_zone st =
    let now = elim (lookup node_id st.on_fleet_zone) as (λ _. Bool) [ none ↦ false | some b ↦ b ] in
    if (if now then on_fleet_zone else not on_fleet_zone)
    then st
    else broadcast_nodes_updated w node_id
        (record st { on_fleet_zone = insert node_id on_fleet_zone st.on_fleet_zone })

-- What a node says over its control socket.
pub data Report : Type 0 where
  updates : Updates → Report
  update : ReportedState → Option ReportedProgress → Report
  app_update_job : Option Job → Report
  storage : Option (List Pool) → Report
  ups : Ups → Report
  peers : (self : Option ℕ) → Option (List ℕ) → Report
  capabilities : (webrtc : Bool) → Report

module _ (before : UpdateKey → UpdateKey → Bool) (w : World) where
  -- The handlers of the reports. The order of effects is that of the source.
  unfoldable pub handle_report : ℕ → Report → Hub → Hub
  unfolding report_updates report_update report_app_update_job report_storage report_ups
      report_capabilities report_peers save_peers broadcast_nodes_updated notify_updates_available
      notify_storage_health
  handle_report node_id (updates u) st =
      notify_updates_available before w node_id u (report_updates w node_id u st)
  handle_report node_id (update state progress) st = report_update w node_id state progress st
  handle_report node_id (app_update_job job) st = report_app_update_job w node_id job st
  handle_report node_id (storage pools) st =
      notify_storage_health w node_id pools (report_storage w node_id pools st)
  handle_report node_id (ups u) st = report_ups w node_id u st
  handle_report node_id (peers self ps) st =
      save_peers node_id self ps
        (broadcast_nodes_updated w node_id (report_peers node_id self ps st))
  handle_report node_id (capabilities webrtc) st = report_capabilities w node_id webrtc st

-- `teardownNode`, as far as the module's own state: the row is deleted before the peering is
-- forgotten, and a row that is not there ends it, since `deleteNode` throws. The release of the node's
-- domain is not part of this state.
unfoldable pub delete_asked : ℕ → List ℕ → Hub → Hub
unfolding forget_node_peering disconnect_node
delete_asked node_id affected asked = elim (lookup node_id asked.rows) [
  | none ↦ asked
  | some row ↦ emit (nodes_updated affected) (
      disconnect_node node_id
        (forget_node_peering node_id (record asked { rows = erase node_id asked.rows })))
]

unfoldable pub teardown_node : World → ℕ → Hub → Hub
unfolding request_unregister delete_asked
teardown_node w node_id st = elim (w.members_of node_id) [
  | none ↦ st
  | some affected ↦ delete_asked node_id affected (request_unregister w node_id st)
]

-- What happens to the module: a connection, a report, the end of a socket, and the calls.
pub data Action : Type 0 where
  connects : Admission → (socket : ℕ) → Action
  reports : (node_id : ℕ) → Report → Action
  ends : (node_id socket : ℕ) → Action
  unregisters : (node_ids : List ℕ) → Action
  tears_down : (node_id : ℕ) → Action
  names_domain : (node_id : ℕ) (on_fleet_zone : Bool) → Action

module _ (before : UpdateKey → UpdateKey → Bool) where
  unfoldable pub step : World → Action → Hub → Hub
  unfolding handle_connection handle_report handle_disconnect unregister_nodes teardown_node
      set_node_domain_name
  step w (connects admission socket) st = handle_connection w admission socket st
  step w (reports node_id report) st = handle_report before w node_id report st
  step w (ends node_id socket) st = handle_disconnect w node_id socket st
  step w (unregisters node_ids) st = unregister_nodes w node_ids st
  step w (tears_down node_id) st = teardown_node w node_id st
  step w (names_domain node_id on_fleet_zone) st = set_node_domain_name w node_id on_fleet_zone st
