-- ===== src/NodeControl/Steps.antt =====
-- modules/node/index.js: the peering through every action of the module, and through a restart.
use virgo_fleet.Base.{ℕ, Bool, Option, none, some, List, ◌≡◌, refl, Option_keeps, each_inv, lookup}
use virgo_fleet.NodeControl.State.{Hub, World, UpdateKey}
use virgo_fleet.NodeControl.Peers.{report_peers, save_peers, forget_node_peering}
use virgo_fleet.NodeControl.Events.{
  Report, Action, connects, reports, ends, unregisters, tears_down, names_domain, step,
  unregister_node, unregister_nodes, teardown_node, delete_asked, request_unregister, handle_report,
}
use virgo_fleet.NodeControl.Inverse.{Inverse, take-Inverse, forget-Inverse}
use virgo_fleet.NodeControl.Untouched.{
  Untouched, nothing, report_updates-Untouched, report_update-Untouched,
  report_app_update_job-Untouched, report_storage-Untouched, report_ups-Untouched,
  report_capabilities-Untouched, set_node_domain_name-Untouched, notify_updates-Untouched,
  notify_storage-Untouched, request_unregister-Untouched, disconnect_node-Untouched,
  handle_disconnect-Untouched, handle_connection-Untouched, broadcast-Untouched,
}

-- The two maps of a hub name each other.
abbrev pub IsInverse : Hub → Type 0
IsInverse st = Inverse st.machine_ids st.node_ids

Untouched-IsInverse : {s t : Hub} → Untouched s t → IsInverse s → IsInverse t
Untouched-IsInverse u inv n m = rw (u.machine_ids, u.node_ids) (inv n m)

module _ (before : UpdateKey → UpdateKey → Bool) (w : World) where
  -- Every report but that of peers leaves the peering alone.
  abbrev Quiet : Report → Type 0
  Quiet (Report.peers self ps) = ⊥
  Quiet _ = Unit

  report-Untouched :
      (node_id : ℕ) (r : Report) (s : Hub)
      → Quiet r
      → Untouched s (handle_report before w node_id r s)
  unfolding handle_report
  report-Untouched node_id (Report.updates u) s q =
      notify_updates-Untouched w node_id s _ (report_updates-Untouched w node_id s u) before u
  report-Untouched node_id (Report.update a p) s q = report_update-Untouched w node_id s a p
  report-Untouched node_id (Report.app_update_job j) s q =
      report_app_update_job-Untouched w node_id s j
  report-Untouched node_id (Report.storage ps) s q =
      notify_storage-Untouched w node_id s _ (report_storage-Untouched w node_id s ps) ps
  report-Untouched node_id (Report.ups u) s q = report_ups-Untouched w node_id s u
  report-Untouched node_id (Report.peers self ps) s q = absurd q
  report-Untouched node_id (Report.capabilities c) s q = report_capabilities-Untouched w node_id s c

  -- What a hub with the peering of `s` has, and the report of peers brings about, every report does.
  pub report_keeps {ℓ} :
      (node_id : ℕ) (s : Hub) (P : Hub → Type ℓ)
      → ((t : Hub) → Untouched s t → P t)
      → (r : Report)
      → ((self : Option ℕ) (ps : Option (List ℕ))
          → r ≡ Report.peers self ps
          → P (handle_report before w node_id (Report.peers self ps) s))
      → P (handle_report before w node_id r s)
  report_keeps node_id s P quiet (Report.peers self ps) heard = heard self ps refl
  report_keeps node_id s P quiet (Report.updates u) heard =
      quiet _ (report-Untouched node_id (Report.updates u) s tt)
  report_keeps node_id s P quiet (Report.update a p) heard =
      quiet _ (report-Untouched node_id (Report.update a p) s tt)
  report_keeps node_id s P quiet (Report.app_update_job j) heard =
      quiet _ (report-Untouched node_id (Report.app_update_job j) s tt)
  report_keeps node_id s P quiet (Report.storage ps) heard =
      quiet _ (report-Untouched node_id (Report.storage ps) s tt)
  report_keeps node_id s P quiet (Report.ups u) heard =
      quiet _ (report-Untouched node_id (Report.ups u) s tt)
  report_keeps node_id s P quiet (Report.capabilities c) heard =
      quiet _ (report-Untouched node_id (Report.capabilities c) s tt)

report_peers-IsInverse :
    (node_id : ℕ) (self : Option ℕ) (ps : Option (List ℕ)) (s : Hub)
    → IsInverse s
    → IsInverse (report_peers node_id self ps s)
unfolding report_peers
report_peers-IsInverse node_id none ps s inv = inv
report_peers-IsInverse node_id (some m) ps s inv = take-Inverse node_id m s inv

forget-IsInverse : (node_id : ℕ) (s : Hub) → IsInverse s → IsInverse (forget_node_peering node_id s)
unfolding forget_node_peering
forget-IsInverse node_id s inv =
    Option_keeps IsInverse (lookup node_id s.machine_ids) _ _ (λ _. forget-Inverse node_id s inv)
      λ m _. forget-Inverse node_id s inv

module _ (before : UpdateKey → UpdateKey → Bool) (w : World) where
  unregister-IsInverse :
      (node_id : ℕ) (s : Hub) → IsInverse s → IsInverse (unregister_node w node_id s)
  unfolding unregister_node
  unregister-IsInverse node_id s inv =
      Untouched-IsInverse (disconnect_node-Untouched w node_id _ _ (nothing _)) (
        forget-IsInverse node_id _
          (Untouched-IsInverse (request_unregister-Untouched w node_id s s (nothing s)) inv))

  handle-IsInverse :
      (node_id : ℕ) (r : Report) (s : Hub)
      → IsInverse s
      → IsInverse (handle_report before w node_id r s)
  handle-IsInverse node_id r s inv =
      report_keeps before w node_id s IsInverse (λ t u. Untouched-IsInverse u inv) r
        λ self ps _.
          unfold handle_report save_peers in
          Untouched-IsInverse (broadcast-Untouched w node_id _ _ (nothing _))
            (report_peers-IsInverse node_id self ps s inv)

  teardown-IsInverse : (node_id : ℕ) (s : Hub) → IsInverse s → IsInverse (teardown_node w node_id s)
  unfolding teardown_node delete_asked
  teardown-IsInverse node_id s inv =
      Option_keeps IsInverse (w.members_of node_id) _ _ (λ _. inv)
        λ _ _.
          Option_keeps IsInverse (lookup node_id (request_unregister w node_id s).rows) _ _
            (λ _. asked)
            λ _ _.
              Untouched-IsInverse (disconnect_node-Untouched w node_id _ _ (nothing _))
                (forget-IsInverse node_id _ asked)
    where
      asked : IsInverse (request_unregister w node_id s)
      asked = Untouched-IsInverse (request_unregister-Untouched w node_id s s (nothing s)) inv

  -- After any action, as before it: a node has a machine id exactly where the machine id leads to the
  -- node, so no two nodes have one machine id, and no machine id leads to two nodes.
  pub step-IsInverse : (a : Action) (s : Hub) → IsInverse s → IsInverse (step before w a s)
  unfolding step
  step-IsInverse (connects a socket) s inv =
      Untouched-IsInverse (handle_connection-Untouched w a socket s) inv
  step-IsInverse (reports node_id r) s inv = handle-IsInverse node_id r s inv
  step-IsInverse (ends node_id socket) s inv =
      Untouched-IsInverse (handle_disconnect-Untouched w node_id socket s) inv
  step-IsInverse (unregisters node_ids) s inv =
      unfold unregister_nodes in
      each_inv IsInverse (unregister_node w) unregister-IsInverse node_ids s inv
  step-IsInverse (tears_down node_id) s inv = teardown-IsInverse node_id s inv
  step-IsInverse (names_domain node_id b) s inv =
      Untouched-IsInverse (set_node_domain_name-Untouched w node_id s b) inv
