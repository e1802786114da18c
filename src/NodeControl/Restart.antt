-- ===== src/NodeControl/Restart.antt =====
-- modules/node/index.js and services/data_service.js: the rows keep up with the maps through every
-- action, and a restart brings the maps back.
use mathlib.Core.Path.{subst}
use virgo_fleet.Base.{
  ℕ, Bool, true, none, is_some, List, [], ◌∷◌, ◌≡◌, ==_refl, Option_keeps, All, each, lookup, erase,
  lookup-erase, arith,
}
use virgo_fleet.NodeControl.State.{Row, Hub, World, UpdateKey, nodes_updated}
use virgo_fleet.NodeControl.Peers.{forget_node_peering}
use virgo_fleet.NodeControl.Events.{
  Report, Action, connects, reports, ends, unregisters, tears_down, names_domain, step,
  unregister_node, unregister_nodes, teardown_node, delete_asked, handle_report, request_unregister,
  disconnect_node,
}
use virgo_fleet.NodeControl.Untouched.{
  nothing, emit-Untouched, set_node_domain_name-Untouched, request_unregister-Untouched,
  disconnect_node-Untouched, handle_disconnect-Untouched, handle_connection-Untouched,
}
use virgo_fleet.NodeControl.Persistence.{
  IsPersisted, Untouched-IsPersisted, report-IsPersisted, forget-IsPersisted, forget_gone, but,
  delete-IsPersistedBut,
}
use virgo_fleet.NodeControl.Steps.{IsInverse, report_keeps}

-- A node that reports peers has a row, and the nodes whose records were removed have none.
abbrev pub Recorded : Action → List (ℕ × Row) → Type 0
Recorded (reports node_id (Report.peers self ps)) rows = is_some (lookup node_id rows) ≡ true
Recorded (unregisters node_ids) rows = All (λ n. lookup n rows ≡ none) node_ids
Recorded _ rows = Unit

module _ (w : World) where
  asked_rows : (node_id : ℕ) (s : Hub) → (request_unregister w node_id s).rows ≡ s.rows
  unfolding request_unregister
  asked_rows node_id s = ground arith

  closed_rows : (node_id : ℕ) (s : Hub) → (disconnect_node node_id s).rows ≡ s.rows
  unfolding disconnect_node
  closed_rows node_id s = ground arith

  unregister-IsPersisted :
      (node_id : ℕ) (s : Hub)
      → lookup node_id s.rows ≡ none
      → IsPersisted s
      → IsPersisted (unregister_node w node_id s)
  unfolding unregister_node
  unregister-IsPersisted node_id s gone p =
      Untouched-IsPersisted (disconnect_node-Untouched w node_id _ _ (nothing _)) (
        forget-IsPersisted node_id (request_unregister w node_id s) (rw (asked_rows node_id s) gone)
          (but node_id
            (Untouched-IsPersisted (request_unregister-Untouched w node_id s s (nothing s)) p)))

  unregister_gone :
      (node_id n : ℕ) (s : Hub)
      → lookup node_id s.rows ≡ none
      → IsPersisted s
      → lookup n s.rows ≡ none
      → lookup n (unregister_node w node_id s).rows ≡ none
  unfolding unregister_node
  unregister_gone node_id n s own p gone =
      rw (closed_rows node_id (forget_node_peering node_id (request_unregister w node_id s))) (
        forget_gone node_id (request_unregister w node_id s) (rw (asked_rows node_id s) own)
          (but node_id
            (Untouched-IsPersisted (request_unregister-Untouched w node_id s s (nothing s)) p))
          n (rw (asked_rows node_id s) gone))

  unregister-gone :
      (node_id : ℕ) (s : Hub)
      → lookup node_id s.rows ≡ none
      → IsPersisted s
      → (ns : List ℕ) → All (λ n. lookup n s.rows ≡ none) ns
      → All (λ n. lookup n (unregister_node w node_id s).rows ≡ none) ns
  unregister-gone node_id s own p [] gone = tt
  unregister-gone node_id s own p (n ∷ ns) gone =
      (unregister_gone node_id n s own p gone.0, unregister-gone node_id s own p ns gone.1)

  unregister_nodes-IsPersisted :
      (node_ids : List ℕ) (s : Hub)
      → All (λ n. lookup n s.rows ≡ none) node_ids
      → IsPersisted s
      → IsPersisted (unregister_nodes w node_ids s)
  unfolding unregister_nodes each
  unregister_nodes-IsPersisted [] s gone p = p
  unregister_nodes-IsPersisted (n ∷ ns) s gone p =
      unregister_nodes-IsPersisted ns (unregister_node w n s)
        (unregister-gone n s gone.0 p ns gone.1) (unregister-IsPersisted n s gone.0 p)

  -- A torn down node is in no map and in no row.
  teardown-IsPersisted :
      (node_id : ℕ) (s : Hub) → IsPersisted s → IsPersisted (teardown_node w node_id s)
  unfolding teardown_node delete_asked
  teardown-IsPersisted node_id s p =
      Option_keeps IsPersisted (w.members_of node_id) _ _ (λ _. p)
        λ ids _.
          Option_keeps IsPersisted (lookup node_id asked.rows) _ _ (λ _. kept)
            λ _ _.
              Untouched-IsPersisted
                (emit-Untouched (nodes_updated ids) _ _ (
                  disconnect_node-Untouched w node_id (forget_node_peering node_id deleted)
                    (forget_node_peering node_id deleted) (nothing _)))
                (forget-IsPersisted node_id deleted gone (delete-IsPersistedBut node_id asked kept))
    where
      asked : Hub
      asked = request_unregister w node_id s

      deleted : Hub
      deleted = record asked { rows = erase node_id asked.rows }

      kept : IsPersisted asked
      kept = Untouched-IsPersisted (request_unregister-Untouched w node_id s s (nothing s)) p

      gone : lookup node_id deleted.rows ≡ none
      gone = rw (lookup-erase node_id node_id asked.rows, ==_refl node_id)

module _ (before : UpdateKey → UpdateKey → Bool) (w : World) where
  handle-IsPersisted :
      (node_id : ℕ) (r : Report) (s : Hub)
      → Recorded (reports node_id r) s.rows
      → IsInverse s
      → IsPersisted s
      → IsPersisted (handle_report before w node_id r s)
  handle-IsPersisted node_id r s h inv p =
      report_keeps before w node_id s IsPersisted (λ t u. Untouched-IsPersisted u p) r
        λ self ps e.
          unfold handle_report in
          report-IsPersisted w node_id self ps s inv
            (subst (λ r. Recorded (reports node_id r) s.rows) e h) p

  -- After any action, as before it: for every node, the machine id and the list of peers are the same
  -- in the maps as in the rows of the database, where the two maps named each other, a node that
  -- reports peers has a row, and the nodes that are unregistered have none.
  pub step-IsPersisted :
      (a : Action) (s : Hub)
      → Recorded a s.rows
      → IsInverse s
      → IsPersisted s
      → IsPersisted (step before w a s)
  unfolding step
  step-IsPersisted (connects a socket) s h inv p =
      Untouched-IsPersisted (handle_connection-Untouched w a socket s) p
  step-IsPersisted (reports node_id r) s h inv p = handle-IsPersisted node_id r s h inv p
  step-IsPersisted (ends node_id socket) s h inv p =
      Untouched-IsPersisted (handle_disconnect-Untouched w node_id socket s) p
  step-IsPersisted (unregisters node_ids) s h inv p = unregister_nodes-IsPersisted w node_ids s h p
  step-IsPersisted (tears_down node_id) s h inv p = teardown-IsPersisted w node_id s p
  step-IsPersisted (names_domain node_id b) s h inv p =
      Untouched-IsPersisted (set_node_domain_name-Untouched w node_id s b) p
