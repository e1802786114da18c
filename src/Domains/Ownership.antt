-- ===== src/Domains/Ownership.antt =====
-- services/domain_service.js: a node is in a cluster of its own owner only, through `leaveCluster` and
-- the records.
use mathlib.Core.Path.{subst}
use virgo_fleet.Base.{
  ℕ, false, not, ◌&&◌, Option, none, some, List, [], ◌∷◌, ◌≡◌, refl, inl, inr, ◌==◌, ==_iff,
  Bool-cases, if_keeps, lookup, insert, erase, lookup-erase, arith,
}
use virgo_fleet.Domains.Names.{Text}
use virgo_fleet.Domains.State.{
  Cluster, Member, Domains, World, Membership, has_member, leave_cluster, get_identifier,
}
use virgo_fleet.Domains.Records.{
  write_a, write_member_records, sync_member_records, sync_members, sync_other_members, to_write,
  own_name, target_address,
}
use virgo_fleet.Domains.Claims.{owner_of}

-- The cluster of a member is there, and belongs to the owner of the node.
unfoldable pub Placed : World → List (ℕ × Cluster) → ℕ → Member → Type 0
Placed w clusters n m =
    (c : Cluster) × (lookup m.cluster_id clusters ≡ some c)
    × (owner_of (w.nodes n) ≡ c.owner_user_id)

unfoldable pub Owned : World → List (ℕ × Cluster) → List (ℕ × Member) → Type 0
unfolding Placed
Owned w clusters [] = Unit
Owned w clusters ((n, m) ∷ rest) = Placed w clusters n m × Owned w clusters rest

pub Owned-insert :
    (w : World) (clusters : List (ℕ × Cluster)) (n : ℕ) (m : Member) (rows : List (ℕ × Member))
    → Placed w clusters n m
    → Owned w clusters rows
    → Owned w clusters (insert n m rows)
unfolding Owned insert
Owned-insert w clusters n m [] p o = (p, tt)
Owned-insert w clusters n m ((k, x) ∷ rows) p o = elim (Bool-cases (k == n)) [
  | inl e ↦ rw (e, insert) (p, o.1)
  | inr e ↦ rw (e, insert) (o.0, Owned-insert w clusters n m rows p o.1)
]

pub Owned-erase :
    (w : World) (clusters : List (ℕ × Cluster)) (n : ℕ) (rows : List (ℕ × Member))
    → Owned w clusters rows
    → Owned w clusters (erase n rows)
unfolding Owned erase
Owned-erase w clusters n [] o = tt
Owned-erase w clusters n ((k, x) ∷ rows) o = elim (Bool-cases (k == n)) [
  | inl e ↦ rw (e, erase) (Owned-erase w clusters n rows o.1)
  | inr e ↦ rw (e, erase) (o.0, Owned-erase w clusters n rows o.1)
]

pub Owned-lookup :
    (w : World) (clusters : List (ℕ × Cluster)) (n : ℕ) (m : Member) (rows : List (ℕ × Member))
    → Owned w clusters rows
    → lookup n rows ≡ some m
    → Placed w clusters n m
unfolding Owned lookup
Owned-lookup w clusters n m [] o h = absurd (ground (arith, h))
Owned-lookup w clusters n m ((k, x) ∷ rows) o h = elim (Bool-cases (k == n)) [
  | inl e ↦
      let own : k ≡ n = (==_iff k n).0 e in
      let row : x ≡ m = ground (arith, e, h) in
      subst (λ j. Placed w clusters j m) own (subst (λ y. Placed w clusters k y) row o.0)
  | inr e ↦ Owned-lookup w clusters n m rows o.1 (ground (arith, e, h))
]

-- The clusters after a change that keeps the owner of each.
pub Owned-clusters :
    (w : World) (clusters clusters' : List (ℕ × Cluster)) (rows : List (ℕ × Member))
    → ((n : ℕ) (m : Member) → Placed w clusters n m → Placed w clusters' n m)
    → Owned w clusters rows
    → Owned w clusters' rows
unfolding Owned
Owned-clusters w clusters clusters' [] keeps o = tt
Owned-clusters w clusters clusters' ((k, x) ∷ rows) keeps o =
    (keeps k x o.0, Owned-clusters w clusters clusters' rows keeps o.1)

-- A cluster without a member is deleted.
Owned-without :
    (w : World) (clusters : List (ℕ × Cluster)) (id : ℕ) (rows : List (ℕ × Member))
    → has_member id rows ≡ false
    → Owned w clusters rows
    → Owned w (erase id clusters) rows
unfolding Owned has_member Placed
Owned-without w clusters id [] h o = tt
Owned-without w clusters id ((k, x) ∷ rows) h o = (
  (o.0.0, ground (arith, h, o.0.1, lookup-erase id x.cluster_id clusters), o.0.2),
  Owned-without w clusters id rows (ground (arith, h)) o.1,
)

abbrev pub IsOwned : World → Domains → Type 0
IsOwned w st = Owned w st.clusters st.members

pub leave-Owned :
    (w : World) (node_id : ℕ) (m : Membership) (st : Domains)
    → IsOwned w st
    → IsOwned w (leave_cluster node_id m st)
unfolding leave_cluster
leave-Owned w node_id m st o =
    if_keeps (IsOwned w) (has_member m.member.cluster_id (erase node_id st.members)) _ _
      (λ _. Owned-erase w st.clusters node_id st.members o)
      λ h.
        Owned-without w st.clusters m.member.cluster_id (erase node_id st.members) h
          (Owned-erase w st.clusters node_id st.members o)

written_keep :
    (w : World) (o : Option (Text × Text)) (st : Domains)
    → ((write_member_records w o st).0.clusters ≡ st.clusters)
      × ((write_member_records w o st).0.members ≡ st.members)
unfolding write_member_records write_a
written_keep w none st = (refl, refl)
written_keep w (some (name, address)) st = (refl, refl)

-- New records of a member change neither the clusters nor its place.
pub sync_member-Owned :
    (w : World) (n : ℕ) (m : Member) (c : Cluster) (st : Domains)
    → Placed w st.clusters n m
    → IsOwned w st
    → IsOwned w (sync_member_records w n m c st)
unfolding sync_member_records Placed
sync_member-Owned w n m c st p o =
    rw (kept.0, kept.1)
      (Owned-insert w st.clusters n (record m { record_ids = written.1 }) st.members p o)
  where
    written : Domains × List ℕ
    written =
        write_member_records w
          (to_write (own_name (get_identifier w n) c) m.lan_ip (target_address c m.lan_ip)) st

    kept : (written.0.clusters ≡ st.clusters) × (written.0.members ≡ st.members)
    kept =
        written_keep w
          (to_write (own_name (get_identifier w n) c) m.lan_ip (target_address c m.lan_ip)) st

pub sync_member-clusters :
    (w : World) (n : ℕ) (m : Member) (c : Cluster) (st : Domains)
    → (sync_member_records w n m c st).clusters ≡ st.clusters
unfolding sync_member_records
sync_member-clusters w n m c st = (written_keep w _ st).0

sync_members-Owned :
    (w : World) (id : ℕ) (c : Cluster) (node_id : ℕ) (rows : List (ℕ × Member)) (st : Domains)
    → Owned w st.clusters rows
    → IsOwned w st
    → IsOwned w (sync_members w id c node_id rows st)
unfolding sync_members Owned
sync_members-Owned w id c node_id [] st r o = o
sync_members-Owned w id c node_id ((n, m) ∷ rows) st r o =
    elim (Bool-cases (m.cluster_id == id && not (n == node_id))) [
      | inl e ↦
          rw (sync_members, e)
            (sync_members-Owned w id c node_id rows (sync_member_records w n m c st)
              (rw (sync_member-clusters w n m c st) r.1) (sync_member-Owned w n m c st r.0 o))
      | inr e ↦ rw (sync_members, e) (sync_members-Owned w id c node_id rows st r.1 o)
    ]

pub sync_other_members-Owned :
    (w : World) (id : ℕ) (c : Cluster) (node_id : ℕ) (st : Domains)
    → IsOwned w st
    → IsOwned w (sync_other_members w id c node_id st)
unfolding sync_other_members
sync_other_members-Owned w id c node_id st o = sync_members-Owned w id c node_id st.members st o o
