-- ===== src/NodeControl/Persistence.antt =====
-- modules/node/index.js and services/data_service.js: what the module's maps say of machines and
-- peers is what the rows of the database say, and what a restart restores.
use virgo_fleet.Base.{
  ℕ, true, false, not, ◌&&◌, Option, none, some, is_some, List, [], ◌≡◌, refl, sym, ap, inl, inr,
  ◌==◌, ==_iff, same, if◌then◌else◌, Bool-cases, Option-cases, lookup, insert, erase, revise,
  lookup-insert, lookup-erase, lookup-revise, arith, ◌∙◌,
}
use virgo_fleet.NodeControl.State.{Row, Hub, World, list_of}
use virgo_fleet.NodeControl.Peers.{
  without_peer, remove_node_peer, claim_machine_id, with_peering, set_node_peering, report_peers,
  save_peers, reported_peers, forget_entries, forget_node_peering,
}
use virgo_fleet.NodeControl.Reports.{broadcast_nodes_updated}
use virgo_fleet.NodeControl.Inverse.{Inverse, take-machine_ids, take-peers, take-rows}
use virgo_fleet.NodeControl.Untouched.{
  machine_of, peers_of, machine_of-revise, peers_of-revise, Untouched,
}

-- The machine and the peers of a node are read alike from the maps and from its row.
pub record IsPersisted (st : Hub) : Type 0 where
  pub machines : (n : ℕ) → lookup n st.machine_ids ≡ machine_of n st.rows
  pub peers : (n : ℕ) → list_of n st.peers ≡ peers_of n st.rows

pub Untouched-IsPersisted : {s t : Hub} → Untouched s t → IsPersisted s → IsPersisted t
Untouched-IsPersisted u p = record {
  machines = λ n. ap (lookup n) u.machine_ids ∙ p.machines n ∙ sym (u.row_machines n);
  peers = λ n. ap (list_of n) u.peers ∙ p.peers n ∙ sym (u.row_peers n);
}

machine_of_gone : (n : ℕ) (rows : List (ℕ × Row)) → lookup n rows ≡ none → machine_of n rows ≡ none
machine_of_gone n rows h = rw (machine_of, h)

peers_of_gone : (n : ℕ) (rows : List (ℕ × Row)) → lookup n rows ≡ none → peers_of n rows ≡ []
peers_of_gone n rows h = rw (peers_of, h)

pub list_of-insert :
    (k n : ℕ) (xs : List ℕ) (m : List (ℕ × List ℕ))
    → list_of n (insert k xs m) ≡ (if k == n then xs else list_of n m)
list_of-insert k n xs m = elim (Bool-cases (k == n)) [
  | inl e ↦ rw (list_of, lookup-insert k n xs m, e)
  | inr e ↦ rw (list_of, lookup-insert k n xs m, e)
]

list_of-erase :
    (k n : ℕ) (m : List (ℕ × List ℕ)) → list_of n (erase k m) ≡ (if k == n then [] else list_of n m)
list_of-erase k n m = elim (Bool-cases (k == n)) [
  | inl e ↦ rw (list_of, lookup-erase k n m, e)
  | inr e ↦ rw (list_of, lookup-erase k n m, e)
]

-- A machine that is gone leaves the list of every node, in memory as in the rows.
list_of-without :
    (machine n : ℕ) (m : List (ℕ × List ℕ))
    → list_of n (revise (λ _. without_peer machine) m) ≡ without_peer machine (list_of n m)
unfolding without_peer
list_of-without machine n m = elim (Option-cases (lookup n m)) [
  | inl e ↦ rw (list_of, lookup-revise (λ _. without_peer machine) n m, e)
  | inr (ps, e) ↦ rw (list_of, lookup-revise (λ _. without_peer machine) n m, e)
]

remove-peers :
    (machine n : ℕ) (rows : List (ℕ × Row))
    → peers_of n (remove_node_peer machine rows) ≡ without_peer machine (peers_of n rows)
unfolding remove_node_peer without_peer
remove-peers machine n rows = peers_of-revise _ n rows ∙ (elim (Option-cases (lookup n rows)) [
  | inl e ↦ rw (peers_of, e)
  | inr (r, e) ↦ rw (peers_of, e)
])

remove-machines :
    (machine n : ℕ) (rows : List (ℕ × Row))
    → machine_of n (remove_node_peer machine rows) ≡ machine_of n rows
unfolding remove_node_peer
remove-machines machine n rows = machine_of-revise _ n rows ∙ (elim (Option-cases (lookup n rows)) [
  | inl e ↦ rw (machine_of, e)
  | inr (r, e) ↦ rw (machine_of, e)
])

-- The claim of a machine id takes it from the other rows.
claim-machines :
    (node_id machine n : ℕ) (rows : List (ℕ × Row))
    → machine_of n (claim_machine_id node_id machine rows) ≡ (
        if same (machine_of n rows) (some machine) && not (n == node_id)
        then none
        else machine_of n rows)
unfolding claim_machine_id
claim-machines node_id machine n rows =
    machine_of-revise _ n rows ∙ (elim (Option-cases (lookup n rows)) [
      | inl e ↦ rw (machine_of, e)
      | inr (r, e) ↦ rw (machine_of, e) (ground arith)
    ])

claim-peers :
    (node_id machine n : ℕ) (rows : List (ℕ × Row))
    → peers_of n (claim_machine_id node_id machine rows) ≡ peers_of n rows
unfolding claim_machine_id
claim-peers node_id machine n rows =
    peers_of-revise _ n rows ∙ (elim (Option-cases (lookup n rows)) [
      | inl e ↦ rw (peers_of, e)
      | inr (r, e) ↦ rw (peers_of, e) (ground arith)
    ])

claim_has :
    (node_id machine n : ℕ) (rows : List (ℕ × Row))
    → is_some (lookup n (claim_machine_id node_id machine rows)) ≡ is_some (lookup n rows)
unfolding claim_machine_id
claim_has node_id machine n rows =
    ap is_some (lookup-revise _ n rows)
    ∙ (elim (Option-cases (lookup n rows)) [ inl e ↦ rw e | inr (r, e) ↦ rw e ])

-- The second update of `setNodePeering`, on a row that is there.
own-machines :
    (node_id n : ℕ) (machine : Option ℕ) (ps : List ℕ) (rows : List (ℕ × Row))
    → is_some (lookup node_id rows) ≡ true
    → machine_of n
        (revise (λ k row. if k == node_id then with_peering machine ps row else row) rows)
      ≡ (if is_some machine && node_id == n then machine else machine_of n rows)
unfolding with_peering
own-machines node_id n none ps rows h =
    machine_of-revise _ n rows ∙ (elim (Option-cases (lookup n rows)) [
      | inl e ↦ rw (machine_of, e)
      | inr (r, e) ↦ rw (machine_of, e) (ground arith)
    ])
own-machines node_id n (some m) ps rows h =
    machine_of-revise _ n rows ∙ (elim (Option-cases (lookup n rows)) [
      | inl e ↦ rw (machine_of, e) (ground arith)
      | inr (r, e) ↦ rw (machine_of, e) (ground arith)
    ])

own-peers :
    (node_id n : ℕ) (machine : Option ℕ) (ps : List ℕ) (rows : List (ℕ × Row))
    → is_some (lookup node_id rows) ≡ true
    → peers_of n (revise (λ k row. if k == node_id then with_peering machine ps row else row) rows)
      ≡ (if node_id == n then ps else peers_of n rows)
unfolding with_peering
own-peers node_id n none ps rows h =
    peers_of-revise _ n rows ∙ (elim (Option-cases (lookup n rows)) [
      | inl e ↦ rw (peers_of, e) (ground arith)
      | inr (r, e) ↦ rw (peers_of, e) (ground arith)
    ])
own-peers node_id n (some m) ps rows h =
    peers_of-revise _ n rows ∙ (elim (Option-cases (lookup n rows)) [
      | inl e ↦ rw (peers_of, e) (ground arith)
      | inr (r, e) ↦ rw (peers_of, e) (ground arith)
    ])

-- A report of peers, from a node that has a row, changes the maps as it changes the rows.
module _ (node_id : ℕ) (ps : Option (List ℕ)) (st : Hub) (inv : Inverse st.machine_ids st.node_ids)
    (h : is_some (lookup node_id st.rows) ≡ true) (p : IsPersisted st) where
  reported-machines :
      (self : Option ℕ) (n : ℕ)
      → lookup n (report_peers node_id self ps st).machine_ids
        ≡ machine_of n (set_node_peering node_id self (reported_peers ps) st.rows)
  unfolding report_peers set_node_peering
  reported-machines none n = p.machines n ∙ sym (own-machines node_id n none _ st.rows h)
  reported-machines (some m) n =
      take-machine_ids node_id m st inv n
      ∙ ground (arith, p.machines n, claim-machines node_id m n st.rows)
      ∙ sym (
          own-machines node_id n (some m) _ (claim_machine_id node_id m st.rows)
            (claim_has node_id m node_id st.rows ∙ h))

  reported-peers :
      (self : Option ℕ) (n : ℕ)
      → list_of n (report_peers node_id self ps st).peers
        ≡ peers_of n (set_node_peering node_id self (reported_peers ps) st.rows)
  unfolding report_peers set_node_peering
  reported-peers none n =
      list_of-insert node_id n _ st.peers
      ∙ ground (arith, p.peers n)
      ∙ sym (own-peers node_id n none _ st.rows h)
  reported-peers (some m) n =
      list_of-insert node_id n _ _
      ∙ ground (
        arith,
        p.peers n,
        claim-peers node_id m n st.rows,
        ap (list_of n) (take-peers node_id m st),
      )
      ∙ sym (
          own-peers node_id n (some m) _ (claim_machine_id node_id m st.rows)
            (claim_has node_id m node_id st.rows ∙ h))

report-rows :
    (node_id : ℕ) (self : Option ℕ) (ps : Option (List ℕ)) (st : Hub)
    → (report_peers node_id self ps st).rows ≡ st.rows
unfolding report_peers
report-rows node_id none ps st = refl
report-rows node_id (some m) ps st = take-rows node_id m st

broadcast_shape :
    (w : World) (node_id : ℕ) (st : Hub)
    → ((broadcast_nodes_updated w node_id st).machine_ids ≡ st.machine_ids)
      × ((broadcast_nodes_updated w node_id st).node_ids ≡ st.node_ids)
      × ((broadcast_nodes_updated w node_id st).peers ≡ st.peers)
      × ((broadcast_nodes_updated w node_id st).rows ≡ st.rows)
unfolding broadcast_nodes_updated
broadcast_shape w node_id st = (ground arith, ground arith, ground arith, ground arith)

pub report-IsPersisted :
    (w : World) (node_id : ℕ) (self : Option ℕ) (ps : Option (List ℕ)) (st : Hub)
    → Inverse st.machine_ids st.node_ids
    → is_some (lookup node_id st.rows) ≡ true
    → IsPersisted st
    → IsPersisted (
        save_peers node_id self ps
          (broadcast_nodes_updated w node_id (report_peers node_id self ps st)))
unfolding save_peers
report-IsPersisted w node_id self ps st inv h p = record {
  machines = λ n.
      ap (lookup n) (broadcast_shape w node_id (report_peers node_id self ps st)).0
      ∙ reported-machines node_id ps st inv h p self n
      ∙ ap (machine_of n) saved;
  peers = λ n.
      ap (list_of n) (broadcast_shape w node_id (report_peers node_id self ps st)).2
      ∙ reported-peers node_id ps st inv h p self n
      ∙ ap (peers_of n) saved;
}
  where
    saved :
        set_node_peering node_id self (reported_peers ps) st.rows
        ≡ set_node_peering node_id self
            (reported_peers ps)
            (broadcast_nodes_updated w node_id (report_peers node_id self ps st)).rows
    saved = sym (
        ap (set_node_peering node_id self (reported_peers ps)) (
          (broadcast_shape w node_id (report_peers node_id self ps st)).3
          ∙ report-rows node_id self ps st))

-- The same of every node but one.
pub record IsPersistedBut (node_id : ℕ) (st : Hub) : Type 0 where
  pub machines : (n : ℕ) → (node_id == n) ≡ false → lookup n st.machine_ids ≡ machine_of n st.rows
  pub peers : (n : ℕ) → (node_id == n) ≡ false → list_of n st.peers ≡ peers_of n st.rows

pub but : {st : Hub} (node_id : ℕ) → IsPersisted st → IsPersistedBut node_id st
but node_id p = record { machines = λ n _. p.machines n; peers = λ n _. p.peers n }

-- The row of the node is deleted.
pub delete-IsPersistedBut :
    (node_id : ℕ) (st : Hub)
    → IsPersisted st
    → IsPersistedBut node_id (record st { rows = erase node_id st.rows })
delete-IsPersistedBut node_id st p = record {
  machines = λ n e. p.machines n ∙ rw (machine_of, lookup-erase node_id n st.rows, e);
  peers = λ n e. p.peers n ∙ rw (peers_of, lookup-erase node_id n st.rows, e);
}

-- A node whose row is gone is forgotten in the maps and in the lists of the others.
module _ (node_id : ℕ) (st : Hub) (gone : lookup node_id st.rows ≡ none)
    (p : IsPersistedBut node_id st) where
  forgotten-machines : (n : ℕ) → lookup n (erase node_id st.machine_ids) ≡ machine_of n st.rows
  forgotten-machines n = lookup-erase node_id n st.machine_ids ∙ (elim (Bool-cases (node_id == n)) [
    | inl e ↦ rw e (
        let same_node : node_id ≡ n = (==_iff node_id n).0 e in
        rw (← same_node) (sym (machine_of_gone node_id st.rows gone)))
    | inr e ↦ rw e (p.machines n e)
  ])

  forgotten-peers : (n : ℕ) → list_of n (erase node_id st.peers) ≡ peers_of n st.rows
  forgotten-peers n = list_of-erase node_id n st.peers ∙ (elim (Bool-cases (node_id == n)) [
    | inl e ↦ rw e (
        let same_node : node_id ≡ n = (==_iff node_id n).0 e in
        rw (← same_node) (sym (peers_of_gone node_id st.rows gone)))
    | inr e ↦ rw e (p.peers n e)
  ])

  pub forget-IsPersisted : IsPersisted (forget_node_peering node_id st)
  unfolding forget_node_peering forget_entries
  forget-IsPersisted = elim (Option-cases (lookup node_id st.machine_ids)) [
    | inl e ↦
        rw (forget_node_peering, e)
          (record { machines = forgotten-machines; peers = forgotten-peers })
    | inr (m, e) ↦
        rw (forget_node_peering, e)
          (record {
            machines = λ n. forgotten-machines n ∙ sym (remove-machines m n st.rows);
            peers = λ n.
                list_of-without m n (erase node_id st.peers)
                ∙ ap (without_peer m) (forgotten-peers n)
                ∙ sym (remove-peers m n st.rows);
          })
  ]

  pub forget_gone :
      (n : ℕ) → lookup n st.rows ≡ none → lookup n (forget_node_peering node_id st).rows ≡ none
  unfolding forget_node_peering forget_entries remove_node_peer
  forget_gone n h = elim (Option-cases (lookup node_id st.machine_ids)) [
    | inl e ↦ rw (forget_node_peering, e) h
    | inr (m, e) ↦ rw (forget_node_peering, e, lookup-revise _ n st.rows, h)
  ]
