-- ===== src/NodeControl/Inverse.antt =====
-- modules/node/index.js: the two maps between nodes and machines name each other, through every
-- handler, and what a report of a machine id does to each.
use virgo_fleet.Base.{
  ℕ, not, ◌&&◌, none, some, List, ◌≡◌, ◌↔◌, inl, inr, ◌==◌, ==_refl, same, same_iff, if◌then◌else◌,
  Option-cases, lookup, lookup-insert, lookup-erase, arith, ◌∙◌,
}
use virgo_fleet.NodeControl.State.{Hub}
use virgo_fleet.NodeControl.Peers.{leave_machine_id, evict_node, take_machine_id, forget_entries}

-- A node has a machine id exactly where the machine id has the node.
abbrev pub Inverse : List (ℕ × ℕ) → List (ℕ × ℕ) → Type 0
Inverse machine_ids node_ids =
    (n m : ℕ) → (lookup n machine_ids ≡ some m) ↔ (lookup m node_ids ≡ some n)

-- Where the machine id was not the node's last one, the last one is free.
leave-node_ids :
    (node_id self : ℕ) (st : Hub)
    → Inverse st.machine_ids st.node_ids
    → (m : ℕ)
    → lookup m (leave_machine_id node_id self st).node_ids ≡ (
        if same (lookup m st.node_ids) (some node_id) && not (m == self)
        then none
        else lookup m st.node_ids)
unfolding leave_machine_id
leave-node_ids node_id self st inv m = elim (Option-cases (lookup node_id st.machine_ids)) [
  | inl e ↦
      rw (leave_machine_id, e)
        (ground (arith, inv node_id m, same_iff (lookup m st.node_ids) (some node_id)))
  | inr (p, e) ↦
      rw (leave_machine_id, e)
        (ground (
          arith,
          inv node_id m,
          inv node_id p,
          same_iff (lookup m st.node_ids) (some node_id),
          lookup-erase p m st.node_ids,
        ))
]

leave-machine_ids :
    (node_id self : ℕ) (st : Hub) → (leave_machine_id node_id self st).machine_ids ≡ st.machine_ids
unfolding leave_machine_id
leave-machine_ids node_id self st = ground arith

evict-node_ids : (node_id self : ℕ) (st : Hub) → (evict_node node_id self st).node_ids ≡ st.node_ids
unfolding evict_node
evict-node_ids node_id self st = ground arith

-- The node that had the machine id, where it was another one, is left without.
evict-machine_ids :
    (node_id self : ℕ) (st : Hub) (ids : List (ℕ × ℕ))
    → Inverse st.machine_ids ids
    → lookup self st.node_ids ≡ lookup self ids
    → (n : ℕ)
    → lookup n (evict_node node_id self st).machine_ids ≡ (
        if same (lookup n st.machine_ids) (some self) && not (n == node_id)
        then none
        else lookup n st.machine_ids)
unfolding evict_node
evict-machine_ids node_id self st ids inv e n = elim (Option-cases (lookup self ids)) [
  | inl f ↦
      rw (evict_node, e, f)
        (ground (arith, inv n self, same_iff (lookup n st.machine_ids) (some self)))
  | inr (p, f) ↦
      rw (evict_node, e, f)
        (ground (
          arith,
          inv n self,
          inv p self,
          same_iff (lookup n st.machine_ids) (some self),
          lookup-erase p n st.machine_ids,
        ))
]

leave_self :
    (node_id self : ℕ) (st : Hub)
    → Inverse st.machine_ids st.node_ids
    → lookup self (leave_machine_id node_id self st).node_ids ≡ lookup self st.node_ids
leave_self node_id self st inv = ground (arith, leave-node_ids node_id self st inv self)

-- After the report of a machine id the node has it, and no other node does.
pub take-machine_ids :
    (node_id self : ℕ) (st : Hub)
    → Inverse st.machine_ids st.node_ids
    → (n : ℕ)
    → lookup n (take_machine_id node_id self st).machine_ids ≡ (
        if node_id == n
        then some self
        else (if same (lookup n st.machine_ids) (some self) then none else lookup n st.machine_ids))
unfolding take_machine_id
take-machine_ids node_id self st inv n =
    lookup-insert node_id n self (evict_node node_id self left).machine_ids
    ∙ ground (arith, evicted)
  where
    left : Hub
    left = leave_machine_id node_id self st

    evicted : lookup n (evict_node node_id self left).machine_ids ≡ (
        if same (lookup n st.machine_ids) (some self) && not (n == node_id)
        then none
        else lookup n st.machine_ids)
    evicted =
        evict-machine_ids node_id self left st.node_ids (rw (leave-machine_ids node_id self st) inv)
          (leave_self node_id self st inv) n
        ∙ rw (leave-machine_ids node_id self st)

pub take-node_ids :
    (node_id self : ℕ) (st : Hub)
    → Inverse st.machine_ids st.node_ids
    → (m : ℕ)
    → lookup m (take_machine_id node_id self st).node_ids ≡ (
        if self == m
        then some node_id
        else (if same (lookup m st.node_ids) (some node_id) then none else lookup m st.node_ids))
unfolding take_machine_id
take-node_ids node_id self st inv m =
    lookup-insert self m node_id (evict_node node_id self left).node_ids
    ∙ rw (evict-node_ids node_id self left) (ground (arith, leave-node_ids node_id self st inv m))
  where
    left : Hub
    left = leave_machine_id node_id self st

pub take-peers : (node_id self : ℕ) (st : Hub) → (take_machine_id node_id self st).peers ≡ st.peers
unfolding take_machine_id leave_machine_id evict_node
take-peers node_id self st = ground arith

pub take-rows : (node_id self : ℕ) (st : Hub) → (take_machine_id node_id self st).rows ≡ st.rows
unfolding take_machine_id leave_machine_id evict_node
take-rows node_id self st = ground arith

pub take-Inverse :
    (node_id self : ℕ) (st : Hub)
    → Inverse st.machine_ids st.node_ids
    → Inverse
        (take_machine_id node_id self st).machine_ids
        (take_machine_id node_id self st).node_ids
take-Inverse node_id self st inv n m =
    rw (take-machine_ids node_id self st inv n, take-node_ids node_id self st inv m)
      (ground (
        arith,
        inv n m,
        same_iff (lookup n st.machine_ids) (some self),
        same_iff (lookup m st.node_ids) (some node_id),
      ))

-- A node that is forgotten has no machine id, and the others keep theirs.
pub forget-machine_ids :
    (node_id : ℕ) (st : Hub) (n : ℕ)
    → lookup n (forget_entries node_id st).machine_ids
      ≡ (if node_id == n then none else lookup n st.machine_ids)
unfolding forget_entries
forget-machine_ids node_id st n = lookup-erase node_id n st.machine_ids

forget-node_ids :
    (node_id : ℕ) (st : Hub)
    → Inverse st.machine_ids st.node_ids
    → (m : ℕ)
    → lookup m (forget_entries node_id st).node_ids
      ≡ (if same (lookup m st.node_ids) (some node_id) then none else lookup m st.node_ids)
unfolding forget_entries
forget-node_ids node_id st inv m = elim (Option-cases (lookup node_id st.machine_ids)) [
  | inl e ↦
      rw (forget_entries, e)
        (ground (arith, inv node_id m, same_iff (lookup m st.node_ids) (some node_id)))
  | inr (p, e) ↦
      rw (forget_entries, e, (inv node_id p).0 e, ==_refl node_id)
        (ground (
          arith,
          inv node_id m,
          inv node_id p,
          same_iff (lookup m st.node_ids) (some node_id),
          lookup-erase p m st.node_ids,
        ))
]

pub forget-Inverse :
    (node_id : ℕ) (st : Hub)
    → Inverse st.machine_ids st.node_ids
    → Inverse (forget_entries node_id st).machine_ids (forget_entries node_id st).node_ids
forget-Inverse node_id st inv n m =
    rw (forget-machine_ids node_id st n, forget-node_ids node_id st inv m)
      (ground (arith, inv n m, same_iff (lookup m st.node_ids) (some node_id)))
