-- ===== src/NodeControl/Restoring.antt =====
-- modules/node/index.js: `initialize` over the rows that the actions left.
use virgo_fleet.Base.{
  ℕ, true, false, ◌&&◌, Option, none, some, is_some, List, [], ◌∷◌, ◌≡◌, refl, sym, ap, inl, inr,
  ◌==◌, ==_iff, same, same_iff, if◌then◌else◌, Bool-cases, Option-cases, each, has, keys, lookup,
  lookup-insert, lookup-keys, arith, ◌∙◌,
}
use virgo_fleet.NodeControl.State.{Row, Hub, list_of, boot}
use virgo_fleet.NodeControl.Peers.{
  initialize, restore_machine, restore_peers, restore_peering, list_node_peering,
}
use virgo_fleet.NodeControl.Untouched.{machine_of, peers_of}
use virgo_fleet.NodeControl.Persistence.{list_of-insert, IsPersisted}
use virgo_fleet.NodeControl.Steps.{IsInverse}

-- No two rows have one node id.
abbrev pub Unique : List (ℕ × Row) → Type 0
Unique [] = Unit
Unique ((k, row) ∷ rows) = (has (keys rows) k ≡ false) × Unique rows

-- What a round of the loop leaves under every key.
module _ (node_id : ℕ) (st : Hub) where
  restore-machine_ids :
      (machine : Option ℕ) (ps : List ℕ) (n : ℕ)
      → lookup n (restore_peers node_id ps (restore_machine node_id machine st)).machine_ids
        ≡ (if node_id == n && is_some machine then machine else lookup n st.machine_ids)
  unfolding restore_machine restore_peers
  restore-machine_ids none [] n = ground arith
  restore-machine_ids none (q ∷ qs) n = ground arith
  restore-machine_ids (some m) [] n = ground (arith, lookup-insert node_id n m st.machine_ids)
  restore-machine_ids (some m) (q ∷ qs) n = ground (arith, lookup-insert node_id n m st.machine_ids)

  restore-node_ids :
      (machine : Option ℕ) (ps : List ℕ) (m : ℕ)
      → lookup m (restore_peers node_id ps (restore_machine node_id machine st)).node_ids
        ≡ (if same machine (some m) then some node_id else lookup m st.node_ids)
  unfolding restore_machine restore_peers
  restore-node_ids none [] m = refl
  restore-node_ids none (q ∷ qs) m = refl
  restore-node_ids (some k) [] m = lookup-insert k m node_id st.node_ids
  restore-node_ids (some k) (q ∷ qs) m = lookup-insert k m node_id st.node_ids

  restore-peers :
      (machine : Option ℕ) (ps : List ℕ) (n : ℕ)
      → list_of n (restore_peers node_id ps (restore_machine node_id machine st)).peers ≡ (
          if node_id == n
          then (elim ps [ [] ↦ list_of n st.peers | q ∷ qs ↦ q ∷ qs ])
          else list_of n st.peers)
  unfolding restore_machine restore_peers
  restore-peers none [] n = ground arith
  restore-peers none (q ∷ qs) n = list_of-insert node_id n (q ∷ qs) st.peers
  restore-peers (some m) [] n = ground arith
  restore-peers (some m) (q ∷ qs) n = list_of-insert node_id n (q ∷ qs) st.peers

-- The loop from any maps.
loop : List (ℕ × Row) → Hub → Hub
loop rows st = each restore_peering (list_node_peering rows) st

round : ℕ → Row → Hub → Hub
unfolding restore_peering
round k row =
    restore_peering (record { node_id = k; machine_id = row.machine_id; peers = row.peers })

abbrev or_else : Option ℕ → Option ℕ → Option ℕ
or_else none other = other
or_else (some m) other = some m

abbrev or_list : List ℕ → List ℕ → List ℕ
or_list [] other = other
or_list (p ∷ ps) other = p ∷ ps

machine_of-cons :
    (k n : ℕ) (row : Row) (rows : List (ℕ × Row))
    → machine_of n ((k, row) ∷ rows) ≡ (if k == n then row.machine_id else machine_of n rows)
unfolding lookup
machine_of-cons k n row rows = ground arith

peers_of-cons :
    (k n : ℕ) (row : Row) (rows : List (ℕ × Row))
    → peers_of n ((k, row) ∷ rows) ≡ (if k == n then row.peers else peers_of n rows)
unfolding lookup
peers_of-cons k n row rows = ground arith

-- A row's columns are not met again further down.
machine_of_fresh :
    (n : ℕ) (rows : List (ℕ × Row)) → has (keys rows) n ≡ false → machine_of n rows ≡ none
machine_of_fresh n rows h = rw (machine_of, lookup-keys n rows h)

peers_of_fresh : (n : ℕ) (rows : List (ℕ × Row)) → has (keys rows) n ≡ false → peers_of n rows ≡ []
peers_of_fresh n rows h = rw (peers_of, lookup-keys n rows h)

loop-machine_ids :
    (rows : List (ℕ × Row)) (st : Hub) (n : ℕ)
    → Unique rows
    → lookup n (loop rows st).machine_ids ≡ or_else (machine_of n rows) (lookup n st.machine_ids)
unfolding loop each list_node_peering round restore_peering
loop-machine_ids [] st n u = unfold lookup in refl
loop-machine_ids ((k, row) ∷ rows) st n u = elim (Bool-cases (k == n)) [
  | inl e ↦
      let own : k ≡ n = (==_iff k n).0 e in
      let fresh : machine_of n rows ≡ none = rw (← own) (machine_of_fresh k rows u.0) in
      loop-machine_ids rows (round k row st) n u.1
      ∙ rw (fresh, machine_of-cons k n row rows, e)
          (restore-machine_ids k st row.machine_id row.peers n ∙ rw e (ground arith))
  | inr e ↦
      loop-machine_ids rows (round k row st) n u.1
      ∙ rw (machine_of-cons k n row rows, e)
          (ap (or_else (machine_of n rows))
            (restore-machine_ids k st row.machine_id row.peers n ∙ rw e))
]

loop-peers :
    (rows : List (ℕ × Row)) (st : Hub) (n : ℕ)
    → Unique rows
    → list_of n (loop rows st).peers ≡ or_list (peers_of n rows) (list_of n st.peers)
unfolding loop each list_node_peering round restore_peering
loop-peers [] st n u = unfold lookup in refl
loop-peers ((k, row) ∷ rows) st n u = elim (Bool-cases (k == n)) [
  | inl e ↦
      let own : k ≡ n = (==_iff k n).0 e in
      let fresh : peers_of n rows ≡ [] = rw (← own) (peers_of_fresh k rows u.0) in
      loop-peers rows (round k row st) n u.1
      ∙ rw (fresh, peers_of-cons k n row rows, e)
          (restore-peers k st row.machine_id row.peers n ∙ rw e (ground arith))
  | inr e ↦
      loop-peers rows (round k row st) n u.1
      ∙ rw (peers_of-cons k n row rows, e)
          (ap (or_list (peers_of n rows)) (restore-peers k st row.machine_id row.peers n ∙ rw e))
]

-- Where the rows lead back from every machine to its node, so do the restored maps.
loop_sound :
    (ids : List (ℕ × ℕ)) (rows : List (ℕ × Row)) (st : Hub)
    → Unique rows
    → ((n m : ℕ) → machine_of n rows ≡ some m → lookup m ids ≡ some n)
    → ((m n : ℕ) → lookup m st.node_ids ≡ some n → lookup m ids ≡ some n)
    → (m n : ℕ) → lookup m (loop rows st).node_ids ≡ some n
    → lookup m ids ≡ some n
unfolding loop each list_node_peering round restore_peering
loop_sound ids [] st u rows_lead st_leads m n h = st_leads m n h
loop_sound ids ((k, row) ∷ rows) st u rows_lead st_leads m n h =
    loop_sound ids rows (round k row st) u.1
      (λ j i e. rows_lead j i (ground (arith, e, machine_of-cons k j row rows, fresh j)))
      (λ i j e. ground (
        arith,
        e,
        restore-node_ids k st row.machine_id row.peers i,
        st_leads i j,
        rows_lead k i,
        machine_of-cons k k row rows,
        same_iff row.machine_id (some i),
      ))
      m n h
  where
    fresh : (j : ℕ) → k ≡ j → machine_of j rows ≡ none
    fresh j e = rw (← e) (machine_of_fresh k rows u.0)

loop_keeps :
    (rows : List (ℕ × Row)) (st : Hub) (m : ℕ)
    → is_some (lookup m st.node_ids) ≡ true
    → is_some (lookup m (loop rows st).node_ids) ≡ true
unfolding loop each list_node_peering round restore_peering
loop_keeps [] st m h = h
loop_keeps ((k, row) ∷ rows) st m h =
    loop_keeps rows (round k row st) m
      (ground (arith, h, restore-node_ids k st row.machine_id row.peers m))

loop_complete :
    (rows : List (ℕ × Row)) (st : Hub) (n m : ℕ)
    → machine_of n rows ≡ some m
    → is_some (lookup m (loop rows st).node_ids) ≡ true
unfolding loop each list_node_peering round restore_peering
loop_complete [] st n m h = unfold lookup in cc h
loop_complete ((k, row) ∷ rows) st n m h = elim (Bool-cases (k == n)) [
  | inl e ↦ loop_keeps rows (round k row st) m (
      ground (
        arith,
        h,
        e,
        machine_of-cons k n row rows,
        restore-node_ids k st row.machine_id row.peers m,
        same_iff row.machine_id (some m),
      ))
  | inr e ↦
      loop_complete rows (round k row st) n m (ground (arith, h, e, machine_of-cons k n row rows))
]

none_below : (m : ℕ) → lookup {V = ℕ} m [] ≡ none
unfolding lookup
none_below m = refl

no_list : (n : ℕ) → list_of {A = ℕ} n [] ≡ []
unfolding lookup
no_list n = refl

or_else-none : (o p : Option ℕ) → p ≡ none → or_else o p ≡ o
or_else-none o p h = ground arith

or_list-nil : (o p : List ℕ) → p ≡ [] → or_list o p ≡ o
or_list-nil o p h = ground arith

module _ (s : Hub) (inv : IsInverse s) (p : IsPersisted s) (u : Unique s.rows) where
  rows_lead : (n m : ℕ) → machine_of n s.rows ≡ some m → lookup m s.node_ids ≡ some n
  rows_lead n m e = (inv n m).0 (p.machines n ∙ e)

  restored-node_ids : (m : ℕ) → lookup m (loop s.rows (boot s.rows)).node_ids ≡ lookup m s.node_ids
  restored-node_ids m = elim (Option-cases (lookup m (loop s.rows (boot s.rows)).node_ids)) [
    | inr (n, e) ↦
        e
        ∙ sym (
            loop_sound s.node_ids s.rows (boot s.rows) u rows_lead
              (λ i j h. ground (arith, h, none_below i)) m n e)
    | inl e ↦ elim (Option-cases (lookup m s.node_ids)) [
      | inl f ↦ e ∙ sym f
      | inr (n, f) ↦
          ground
            (arith, e, loop_complete s.rows (boot s.rows) n m (sym (p.machines n) ∙ (inv n m).1 f))
    ]
  ]

-- After a restart over the rows of the database, the maps between nodes and machines and the lists of
-- peers are read as before it, for every node and every machine, where the rows had kept up with the
-- maps, the two maps named each other, and no two rows have one node id.
pub initialize_restores :
    (s : Hub)
    → IsInverse s
    → IsPersisted s
    → Unique s.rows
    → (n m : ℕ)
    → (lookup n (initialize (boot s.rows)).machine_ids ≡ lookup n s.machine_ids)
      × (lookup m (initialize (boot s.rows)).node_ids ≡ lookup m s.node_ids)
      × (list_of n (initialize (boot s.rows)).peers ≡ list_of n s.peers)
unfolding initialize loop
initialize_restores s inv p u n m = (
  loop-machine_ids s.rows (boot s.rows) n u
      ∙ or_else-none (machine_of n s.rows) _ (none_below n)
      ∙ sym (p.machines n),
  restored-node_ids s inv p u m,
  loop-peers s.rows (boot s.rows) n u
      ∙ or_list-nil (peers_of n s.rows) _ (no_list n)
      ∙ sym (p.peers n),
)
