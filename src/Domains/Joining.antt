-- ===== src/Domains/Joining.antt =====
-- services/domain_service.js: `claim` puts a node into a cluster of its own owner, or changes nothing.
use mathlib.Core.Path.{subst}
use virgo_fleet.Base.{
  ℕ, Bool, true, false, not, ◌||◌, Option, none, some, List, [], ◌∷◌, ◌++◌, ◌≡◌, refl, sym, ap, inl,
  inr, ◌==◌, ==_iff, ==_refl, same_iff, Bool-cases, Option-cases, if_keeps, lookup, insert,
  lookup-insert, lookup-erase, arith, ◌∙◌,
}
use virgo_fleet.Domains.Names.{
  Text, same_text, Identifier, normalize_label, is_label, is_public_address,
}
use virgo_fleet.Domains.State.{
  Cluster, Member, NodeRow, Domains, World, Membership, find_cluster, get_membership, leave_cluster,
}
use virgo_fleet.Domains.Reserved.{is_reserved}
use virgo_fleet.Domains.Claims.{
  Availability, is_available_name, is_available, standing, zone_text, owner_of, shares_owner,
  probe_target, Request, new_cluster, refreshed_cluster, put_cluster, put_member, is_joined,
  leave_other, sync_promoted, is_promoted, claim_with,
}
use virgo_fleet.Domains.Ownership.{
  Placed, Owned, IsOwned, Owned-insert, Owned-lookup, Owned-clusters, leave-Owned,
  sync_other_members-Owned,
}

pub same_text_eq : (s t : Text) → same_text s t ≡ true → s ≡ t
unfolding same_text
same_text_eq [] [] h = refl
same_text_eq [] (d ∷ ds) h = cc h
same_text_eq (c ∷ cs) [] h = cc h
same_text_eq (c ∷ cs) (d ∷ ds) h = ground (arith, h, same_text_eq cs ds)

pub same_text_refl : (t : Text) → same_text t t ≡ true
unfolding same_text
same_text_refl [] = refl
same_text_refl (c ∷ cs) = ground (arith, same_text_refl cs)

pub find-fqdn :
    (t : Text) (clusters : List (ℕ × Cluster)) (e : ℕ × Cluster)
    → find_cluster t clusters ≡ some e
    → e.1.fqdn ≡ t
unfolding find_cluster
find-fqdn t [] e h = absurd (ground (arith, h))
find-fqdn t (x ∷ xs) e h = elim (Bool-cases (same_text x.1.fqdn t)) [
  | inl q ↦
      let own : x ≡ e = ground (arith, q, h) in
      subst (λ y. y.1.fqdn ≡ t) own (same_text_eq x.1.fqdn t q)
  | inr q ↦ find-fqdn t xs e (ground (arith, q, h))
]

-- The id and the name of a cluster are unique in its table.
pub record IsTable (clusters : List (ℕ × Cluster)) : Type 0 where
  pub by_id :
      (t : Text) (e : ℕ × Cluster)
      → find_cluster t clusters ≡ some e
      → lookup e.0 clusters ≡ some e.1
  pub by_name :
      (id : ℕ) (c : Cluster)
      → lookup id clusters ≡ some c
      → find_cluster c.fqdn clusters ≡ some (id, c)

abbrev pub owner_in : Option Cluster → Option ℕ
owner_in none = none
owner_in (some c) = c.owner_user_id

module _ (w : World) (r : Request) (probed : Bool) where
  -- A cluster that is refreshed keeps its owner.
  refresh-Placed :
      (e : ℕ × Cluster) (clusters : List (ℕ × Cluster)) (n : ℕ) (m : Member)
      → lookup e.0 clusters ≡ some e.1
      → Placed w clusters n m
      → Placed w (insert e.0 (refreshed_cluster r probed e.1) clusters) n m
  unfolding Placed refreshed_cluster
  refresh-Placed e clusters n m h p = elim (Bool-cases (e.0 == m.cluster_id)) [
    | inl q ↦ (
      refreshed_cluster r probed e.1,
      ground (arith, q, lookup-insert e.0 m.cluster_id (refreshed_cluster r probed e.1) clusters),
      p.2
          ∙ ap owner_in
              (sym p.1 ∙ ap (λ k. lookup k clusters) (sym ((==_iff e.0 m.cluster_id).0 q)) ∙ h),
    )
    | inr q ↦ (
      p.0,
      ground
          (arith, q, p.1, lookup-insert e.0 m.cluster_id (refreshed_cluster r probed e.1) clusters),
      p.2,
    )
  ]

  -- A new cluster takes nobody's place.
  create-Placed :
      (i : Identifier) (id : ℕ) (clusters : List (ℕ × Cluster)) (n : ℕ) (m : Member)
      → lookup id clusters ≡ none
      → Placed w clusters n m
      → Placed w (insert id (new_cluster w i r probed) clusters) n m
  unfolding Placed
  create-Placed i id clusters n m h p = (
    p.0,
    ground
        (arith, h, p.1, lookup-insert id m.cluster_id (new_cluster w i r probed) clusters, moved),
    p.2,
  )
    where
      moved : id ≡ m.cluster_id → lookup m.cluster_id clusters ≡ none
      moved q = rw (← q) h

  -- The node's row in the cluster that the claim gave.
  own-Placed :
      (n : ℕ) (id : ℕ) (c : Cluster) (clusters : List (ℕ × Cluster)) (m : Member)
      → m.cluster_id ≡ id
      → lookup id clusters ≡ some c
      → owner_of (w.nodes n) ≡ c.owner_user_id
      → Placed w clusters n m
  unfolding Placed
  own-Placed n id c clusters m e h o = (c, ap (λ k. lookup k clusters) e ∙ h, o)

  abbrev new_row : ℕ → Member
  new_row id = record { cluster_id = id; lan_ip = r.node_address; record_ids = [] }

  join_row :
      (mo : Option Membership) (id : ℕ) (st : Domains)
      → Placed w st.clusters r.node_id (new_row id)
      → IsOwned w st
      → IsOwned w (put_member r mo false id st)
  unfolding put_member
  join_row none id st p o = Owned-insert w st.clusters r.node_id (new_row id) st.members p o
  join_row (some m) id st p o = Owned-insert w st.clusters r.node_id (new_row id) st.members p o

  shared :
      (o : Option NodeRow) (c : Cluster) → shares_owner o c ≡ true → owner_of o ≡ c.owner_user_id
  shared none c h = cc h
  shared (some row) c h = (same_iff row.owner_user_id c.owner_user_id).0 h

  -- A node that has not joined, into a cluster that is new, or that its owner owns.
  join-Owned :
      (i : Identifier) (mo : Option Membership) (found : Option (ℕ × Cluster)) (new_id : ℕ)
      (st : Domains)
      → IsOwned w st
      → lookup new_id st.clusters ≡ none
      → ((e : ℕ × Cluster)
          → found ≡ some e
          → (lookup e.0 st.clusters ≡ some e.1) × (shares_owner (w.nodes r.node_id) e.1 ≡ true))
      → IsOwned w (
          put_member r mo false
            (put_cluster w i r probed found new_id st).0
            (put_cluster w i r probed found new_id st).1)
  unfolding put_cluster
  join-Owned i mo none new_id st o fresh h =
      join_row mo new_id (record st { clusters = after })
        (own-Placed r.node_id new_id (new_cluster w i r probed) after (new_row new_id) refl
          (rw (lookup-insert new_id new_id (new_cluster w i r probed) st.clusters, ==_refl new_id))
          (unfold new_cluster in refl))
        (Owned-clusters w st.clusters after st.members
          (λ n x p. create-Placed i new_id st.clusters n x fresh p) o)
    where
      after : List (ℕ × Cluster)
      after = insert new_id (new_cluster w i r probed) st.clusters
  join-Owned i mo (some e) new_id st o fresh h =
      join_row mo e.0 (record st { clusters = after })
        (own-Placed r.node_id e.0 (refreshed_cluster r probed e.1) after (new_row e.0) refl
          (rw (lookup-insert e.0 e.0 (refreshed_cluster r probed e.1) st.clusters, ==_refl e.0))
          (shared (w.nodes r.node_id) e.1 (h e refl).1 ∙ (unfold refreshed_cluster in refl)))
        (Owned-clusters w st.clusters after st.members
          (λ n x p. refresh-Placed e st.clusters n x (h e refl).0 p) o)
    where
      after : List (ℕ × Cluster)
      after = insert e.0 (refreshed_cluster r probed e.1) st.clusters

  -- A node that has joined keeps its place.
  stay-Owned :
      (i : Identifier) (m : Membership) (e : ℕ × Cluster) (new_id : ℕ) (st : Domains)
      → IsOwned w st
      → lookup r.node_id st.members ≡ some m.member
      → lookup e.0 st.clusters ≡ some e.1
      → IsOwned w (
          put_member r
            (some m)
            true
            (put_cluster w i r probed (some e) new_id st).0
            (put_cluster w i r probed (some e) new_id st).1)
  unfolding put_member put_cluster
  stay-Owned i m e new_id st o row h =
      Owned-insert w _ r.node_id (record m.member { lan_ip = r.node_address }) st.members
        (own_row (Owned-lookup w _ r.node_id m.member st.members refreshed row)) refreshed
    where
      after : List (ℕ × Cluster)
      after = insert e.0 (refreshed_cluster r probed e.1) st.clusters

      refreshed : Owned w after st.members
      refreshed =
          Owned-clusters w st.clusters after st.members
            (λ n x p. refresh-Placed e st.clusters n x h p) o

      own_row :
          Placed w after r.node_id m.member
          → Placed w after r.node_id (record m.member { lan_ip = r.node_address })
      own_row p = unfold Placed in p

pub membership-some :
    (n : ℕ) (st : Domains) (m : Membership)
    → get_membership n st ≡ some m
    → (lookup n st.members ≡ some m.member)
      × (lookup m.member.cluster_id st.clusters ≡ some m.cluster)
unfolding get_membership
membership-some n st m h = elim (Option-cases (lookup n st.members)) [
  | inl e ↦ ground (arith, e, h)
  | inr (x, e) ↦ elim (Option-cases (lookup x.cluster_id st.clusters)) [
    | inl f ↦ ground (arith, e, f, h)
    | inr (c, f) ↦ (ground (arith, e, f, h), ground (arith, e, f, h))
  ]
]

standing_shares :
    (w : World) (n : ℕ) (e : ℕ × Cluster) (o : Option (ℕ × Cluster))
    → o ≡ some e
    → is_available_name (standing w (some n) o) ≡ true
    → shares_owner (w.nodes n) e.1 ≡ true
unfolding standing
standing_shares w n e none f a = absurd (ground (arith, f))
standing_shares w n e (some x) f a = elim (Bool-cases (shares_owner (w.nodes n) x.1)) [
  | inl q ↦
      let own : x ≡ e = ground (arith, f) in subst (λ y. shares_owner (w.nodes n) y.1 ≡ true) own q
  | inr q ↦ ground (arith, q, a)
]

-- A name is available to the owner of its cluster only.
pub available_shares :
    (w : World) (label : Text) (n : ℕ) (st : Domains) (e : ℕ × Cluster)
    → is_available_name (is_available w label (some n) st) ≡ true
    → find_cluster (normalize_label label ++ b'.' ∷ zone_text w.zone) st.clusters ≡ some e
    → shares_owner (w.nodes n) e.1 ≡ true
unfolding is_available
available_shares w label n st e a f =
    if_keeps Shares (not (is_label (normalize_label label))) _ _ (λ _ q. cc q)
      (λ _.
        if_keeps Shares (is_reserved (normalize_label label)) _ _ (λ _ q. cc q)
          (λ _ q. standing_shares w n e _ f q))
      a
  where
    Shares : Availability → Type 0
    Shares v = is_available_name v ≡ true → shares_owner (w.nodes n) e.1 ≡ true

left_fresh :
    (n id : ℕ) (mo : Option Membership) (joined : Bool) (st : Domains)
    → lookup id st.clusters ≡ none
    → lookup id (leave_other n mo joined st).clusters ≡ none
unfolding leave_other leave_cluster
left_fresh n id none joined st h = h
left_fresh n id (some m) joined st h =
    ground (arith, h, lookup-erase m.member.cluster_id id st.clusters)

pub left_found :
    (n id : ℕ) (c : Cluster) (mo : Option Membership) (joined : Bool) (st : Domains)
    → ((m : Membership) → mo ≡ some m → (m.member.cluster_id == id) ≡ false)
    → lookup id st.clusters ≡ some c
    → lookup id (leave_other n mo joined st).clusters ≡ some c
unfolding leave_other leave_cluster
left_found n id c none joined st other h = h
left_found n id c (some m) joined st other h =
    ground (arith, h, other m refl, lookup-erase m.member.cluster_id id st.clusters)

left-Owned :
    (w : World) (n : ℕ) (mo : Option Membership) (joined : Bool) (st : Domains)
    → IsOwned w st
    → IsOwned w (leave_other n mo joined st)
unfolding leave_other
left-Owned w n none joined st o = o
left-Owned w n (some m) joined st o =
    if_keeps (IsOwned w) joined _ _ (λ _. o) (λ _. leave-Owned w n m st o)

promoted-Owned :
    (w : World) (r : Request) (probed : Bool) (found : Option (ℕ × Cluster)) (st : Domains)
    → IsOwned w st
    → IsOwned w (sync_promoted w r probed found st)
unfolding sync_promoted
promoted-Owned w r probed none st o = o
promoted-Owned w r probed (some e) st o =
    if_keeps (IsOwned w) (is_promoted (some e) probed) _ _
      (λ _. sync_other_members-Owned w e.0 (refreshed_cluster r probed e.1) r.node_id st o) (λ _. o)

-- The claim of a name that the node has joined, or that its owner may join.
module _ (w : World) (i : Identifier) (r : Request) (new_id : ℕ) (st : Domains)
    (o : IsOwned w st) where
  abbrev placed : Option Membership → Option (ℕ × Cluster) → ℕ × Domains
  placed mo found =
      put_cluster w i r (is_public_address r.address || probe_target w i.node_fqdn r.public_ip)
        found new_id (leave_other r.node_id mo (is_joined i.fqdn mo) st)

  pub joined-Owned :
      (m : Membership) (e : ℕ × Cluster)
      → is_joined i.fqdn (some m) ≡ true
      → lookup r.node_id st.members ≡ some m.member
      → lookup e.0 st.clusters ≡ some e.1
      → IsOwned w (claim_with w i r new_id (some m) (some e) st).0
  unfolding claim_with leave_other
  joined-Owned m e j row h =
      promoted-Owned w r (is_public_address r.address || probe_target w i.node_fqdn r.public_ip)
        (some e)
        (put_member r (some m) (is_joined i.fqdn (some m)) (placed (some m) (some e)).0
          (placed (some m) (some e)).1)
        (rw j (
          stay-Owned w r (is_public_address r.address || probe_target w i.node_fqdn r.public_ip) i m
            e new_id st o row h))

  pub joining-Owned :
      (mo : Option Membership) (found : Option (ℕ × Cluster))
      → is_joined i.fqdn mo ≡ false
      → lookup new_id st.clusters ≡ none
      → ((e : ℕ × Cluster)
          → found ≡ some e
          → (lookup e.0 (leave_other r.node_id mo false st).clusters ≡ some e.1)
            × (shares_owner (w.nodes r.node_id) e.1 ≡ true))
      → IsOwned w (claim_with w i r new_id mo found st).0
  unfolding claim_with
  joining-Owned mo found j fresh shares =
      promoted-Owned w r (is_public_address r.address || probe_target w i.node_fqdn r.public_ip)
        found (put_member r mo (is_joined i.fqdn mo) (placed mo found).0 (placed mo found).1)
        (rw j (
          join-Owned w r (is_public_address r.address || probe_target w i.node_fqdn r.public_ip) i
            mo found new_id (leave_other r.node_id mo false st)
            (left-Owned w r.node_id mo false st o) (left_fresh r.node_id new_id mo false st fresh)
            shares))
