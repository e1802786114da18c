-- ===== src/NodeControl/Peers.antt =====
-- modules/node/index.js: the peering of nodes (`initialize`, `#forgetNodePeering`, `node:peers`), and
-- services/data_service.js: `listNodePeering`, `removeNodePeer` and `setNodePeering`.
use virgo_fleet.Base.{
  ℕ, not, ◌&&◌, Option, none, some, List, [], ◌∷◌, ◌==◌, same, if◌then◌else◌, has, keep, each,
  lookup, insert, erase, revise,
}
use virgo_fleet.NodeControl.State.{Row, Hub}

pub record Peering : Type 0 where
  pub node_id : ℕ
  pub machine_id : Option ℕ
  pub peers : List ℕ

unfoldable pub list_node_peering : List (ℕ × Row) → List Peering
list_node_peering [] = []
list_node_peering ((node_id, row) ∷ rows) =
    record { node_id = node_id; machine_id = row.machine_id; peers = row.peers }
    ∷ list_node_peering rows

-- `peers.filter((peer) => peer !== machineId)` where the list includes it.
unfoldable pub without_peer : ℕ → List ℕ → List ℕ
without_peer machine_id peers =
    if has peers machine_id then keep (λ peer. not (peer == machine_id)) peers else peers

unfoldable pub remove_node_peer : ℕ → List (ℕ × Row) → List (ℕ × Row)
remove_node_peer machine_id =
    revise (λ _ row. record row { peers = without_peer machine_id row.peers })

-- The first update of `setNodePeering`: the machine id is taken from every other row.
unfoldable pub claim_machine_id : ℕ → ℕ → List (ℕ × Row) → List (ℕ × Row)
claim_machine_id node_id machine_id = revise λ k row.
    if same row.machine_id (some machine_id) && not (k == node_id)
    then record row { machine_id = none }
    else row

-- `values.machineId` is left out without one.
unfoldable pub with_peering : Option ℕ → List ℕ → Row → Row
with_peering none peers row = record row { peers = peers }
with_peering (some m) peers row = record row { peers = peers; machine_id = some m }

unfoldable pub set_node_peering : ℕ → Option ℕ → List ℕ → List (ℕ × Row) → List (ℕ × Row)
unfolding claim_machine_id with_peering
set_node_peering node_id machine_id peers rows =
    let claimed : List (ℕ × Row) = elim machine_id [
      | none ↦ rows
      | some m ↦ claim_machine_id node_id m rows
    ] in
    revise (λ k row. if k == node_id then with_peering machine_id peers row else row) claimed

unfoldable pub restore_machine : ℕ → Option ℕ → Hub → Hub
restore_machine node_id none st = st
restore_machine node_id (some m) st = record st {
  machine_ids = insert node_id m st.machine_ids;
  node_ids = insert m node_id st.node_ids;
}

unfoldable pub restore_peers : ℕ → List ℕ → Hub → Hub
restore_peers node_id [] st = st
restore_peers node_id (q ∷ qs) st = record st { peers = insert node_id (q ∷ qs) st.peers }

-- The round of the loop of `initialize`.
unfoldable pub restore_peering : Peering → Hub → Hub
unfolding restore_machine restore_peers
restore_peering p st = restore_peers p.node_id p.peers (restore_machine p.node_id p.machine_id st)

unfoldable pub initialize : Hub → Hub
unfolding restore_peering list_node_peering
initialize st = each restore_peering (list_node_peering st.rows) st

-- `this.#nodeIdByMachineId.delete(previousMachineId)` where the node had another one.
unfoldable pub leave_machine_id : ℕ → ℕ → Hub → Hub
leave_machine_id node_id self st = elim (lookup node_id st.machine_ids) [
  | none ↦ st
  | some previous ↦
      if previous == self then st else record st { node_ids = erase previous st.node_ids }
]

-- `this.#machineIdByNodeId.delete(previousNodeId)` where another node had the machine id.
unfoldable pub evict_node : ℕ → ℕ → Hub → Hub
evict_node node_id self st = elim (lookup self st.node_ids) [
  | none ↦ st
  | some previous ↦
      if previous == node_id then st else record st { machine_ids = erase previous st.machine_ids }
]

unfoldable pub take_machine_id : ℕ → ℕ → Hub → Hub
unfolding leave_machine_id evict_node
take_machine_id node_id self st =
    let free = evict_node node_id self (leave_machine_id node_id self st) in
    record free {
      machine_ids = insert node_id self free.machine_ids;
      node_ids = insert self node_id free.node_ids;
    }

-- `Array.isArray(peers) ? peers : []`
abbrev pub reported_peers : Option (List ℕ) → List ℕ
reported_peers none = []
reported_peers (some ps) = ps

-- The maps after `node:peers`. Without a list, the peers are none.
unfoldable pub report_peers : ℕ → Option ℕ → Option (List ℕ) → Hub → Hub
unfolding take_machine_id
report_peers node_id self peers st =
    let identified : Hub = elim self [ none ↦ st | some m ↦ take_machine_id node_id m st ] in
    record identified { peers = insert node_id (reported_peers peers) identified.peers }

unfoldable pub save_peers : ℕ → Option ℕ → Option (List ℕ) → Hub → Hub
unfolding set_node_peering
save_peers node_id self peers st = record st {
  rows = set_node_peering node_id self (reported_peers peers) st.rows;
}

-- The node's own entries, which `#forgetNodePeering` deletes first.
unfoldable pub forget_entries : ℕ → Hub → Hub
forget_entries node_id st =
    let freed : List (ℕ × ℕ) = elim (lookup node_id st.machine_ids) [
      | none ↦ st.node_ids
      | some m ↦
          if same (lookup m st.node_ids) (some node_id) then erase m st.node_ids else st.node_ids
    ] in
    record st {
      node_ids = freed;
      machine_ids = erase node_id st.machine_ids;
      peers = erase node_id st.peers;
    }

unfoldable pub forget_node_peering : ℕ → Hub → Hub
unfolding forget_entries without_peer remove_node_peer
forget_node_peering node_id st =
    let forgotten = forget_entries node_id st in
    elim (lookup node_id st.machine_ids) [
      | none ↦ forgotten
      | some m ↦ record forgotten {
        peers = revise (λ _ peers. without_peer m peers) forgotten.peers;
        rows = remove_node_peer m forgotten.rows;
      }
    ]
