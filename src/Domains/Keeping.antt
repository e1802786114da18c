-- ===== src/Domains/Keeping.antt =====
-- services/domain_service.js: a node is in a cluster of its own owner only, through the records, the
-- probe, the release of names and the challenges.
use virgo_fleet.Base.{
  ℕ, not, ◌&&◌, Option, some, List, [], ◌∷◌, ◌≡◌, refl, sym, ap, inl, inr, ◌==◌, ==_iff, leb, same,
  Bool-cases, if_keeps, Option_keeps, each, lookup, insert, erase, lookup-insert, lookup-erase,
  arith, ◌∙◌,
}
use virgo_fleet.Domains.Names.{Text, is_public_address}
use virgo_fleet.Domains.State.{Cluster, Member, Domains, World, get_membership, get_identifier}
use virgo_fleet.Domains.Records.{
  write_a, write_apex, drop_apex, write_cluster_records, has_legacy_member, with_public_ip,
  target_address, sync_records, promote,
}
use virgo_fleet.Domains.Claims.{probe_target}
use virgo_fleet.Domains.Challenges.{
  remove_challenges, cleanup_all, release, reprobe, reprobe_at, probed_name, drop_members,
  drop_clusters, release_owned_by, present, present_name, authorize, count_recent, issuance_limit,
  cleanup, Answer,
}
use virgo_fleet.Domains.Ownership.{
  Placed, Owned, IsOwned, Owned-lookup, Owned-clusters, leave-Owned, sync_member-Owned,
  sync_member-clusters, sync_other_members-Owned,
}
use virgo_fleet.Domains.Joining.{owner_in, membership-some}
use virgo_fleet.Domains.Issuance.{Authorization_keeps}

-- A cluster that is saved keeps its owner.
save-Owned :
    (w : World) (id : ℕ) (c c' : Cluster) (st : Domains)
    → lookup id st.clusters ≡ some c
    → c'.owner_user_id ≡ c.owner_user_id
    → IsOwned w st
    → Owned w (insert id c' st.clusters) st.members
unfolding Placed
save-Owned w id c c' st h own o =
    Owned-clusters w st.clusters (insert id c' st.clusters) st.members (λ n m p. placed n m p) o
  where
    placed :
        (n : ℕ) (m : Member) → Placed w st.clusters n m → Placed w (insert id c' st.clusters) n m
    placed n m p = elim (Bool-cases (id == m.cluster_id)) [
      | inl q ↦ (
        c',
        ground (arith, q, lookup-insert id m.cluster_id c' st.clusters),
        p.2
            ∙ ap owner_in
                (sym p.1 ∙ ap (λ k. lookup k st.clusters) (sym ((==_iff id m.cluster_id).0 q)) ∙ h)
            ∙ sym own,
      )
      | inr q ↦ (p.0, ground (arith, q, p.1, lookup-insert id m.cluster_id c' st.clusters), p.2)
    ]

write_cluster-Owned :
    (w : World) (id : ℕ) (c c' : Cluster) (address : Text) (st : Domains)
    → lookup id st.clusters ≡ some c
    → c'.owner_user_id ≡ c.owner_user_id
    → IsOwned w st
    → IsOwned w (write_cluster_records w id c' address st)
unfolding write_cluster_records write_apex drop_apex write_a
write_cluster-Owned w id c c' address st h own o =
    if_keeps (IsOwned w) (has_legacy_member w id c' st.members) _ _
      (λ _. save-Owned w id c _ st h own o) (λ _. save-Owned w id c _ st h own o)

with_public_ip-owner :
    (ip : Option Text) (c : Cluster) → (with_public_ip ip c).owner_user_id ≡ c.owner_user_id
unfolding with_public_ip
with_public_ip-owner ip c =
    if_keeps (λ (d : Cluster). d.owner_user_id ≡ c.owner_user_id) (is_public_address ip) _ _
      (λ _. refl) (λ _. refl)

pub sync_records-Owned :
    (w : World) (n : ℕ) (ip : Option Text) (st : Domains)
    → IsOwned w st
    → IsOwned w (sync_records w n ip st)
unfolding sync_records
sync_records-Owned w n ip st o =
    Option_keeps (IsOwned w) (get_membership n st) _ _ (λ _. o)
      (λ m e.
        Option_keeps (IsOwned w)
          (target_address (with_public_ip ip m.cluster) (with_public_ip ip m.cluster).lan_ip) _ _
          (λ _. o)
          (λ address _.
            write_cluster-Owned w m.member.cluster_id m.cluster (with_public_ip ip m.cluster)
              address _
              (ap (lookup m.member.cluster_id)
                  (sync_member-clusters w n m.member (with_public_ip ip m.cluster) st)
                ∙ (membership-some n st m e).1)
              (with_public_ip-owner ip m.cluster)
              (sync_member-Owned w n m.member _ st
                (Owned-lookup w st.clusters n m.member st.members o (membership-some n st m e).0)
                o)))

pub reprobe-Owned :
    (w : World) (n : ℕ) (ip : Option Text) (st : Domains)
    → IsOwned w st
    → IsOwned w (reprobe w n ip st)
unfolding reprobe reprobe_at promote
reprobe-Owned w n ip st o =
    Option_keeps (IsOwned w) (get_membership n st) _ _ (λ _. o)
      (λ m e.
        Option_keeps (IsOwned w) ip _ _ (λ _. o)
          (λ address _.
            if_keeps (IsOwned w)
              (probe_target w (probed_name (get_identifier w n) m.cluster) (some address)
                && not m.cluster.is_public)
              _ _
              (λ _. sync_records-Owned w n (some address) _ (
                sync_other_members-Owned w m.member.cluster_id _ n _ (
                  save-Owned w m.member.cluster_id m.cluster _ st (membership-some n st m e).1 refl
                    o)))
              (λ _. o)))

pub release-Owned : (w : World) (n : ℕ) (st : Domains) → IsOwned w st → IsOwned w (release n st)
unfolding release cleanup_all remove_challenges
release-Owned w n st o =
    Option_keeps (IsOwned w) (get_membership n st) _ _ (λ _. o) (λ m _. leave-Owned w n m st o)

-- A deleted cluster takes its members with it.
Owned-dropped :
    (w : World) (clusters : List (ℕ × Cluster)) (id : ℕ) (rows : List (ℕ × Member))
    → Owned w clusters rows
    → Owned w (erase id clusters) (drop_members id rows)
unfolding Owned Placed
Owned-dropped w clusters id [] o = tt
Owned-dropped w clusters id ((n, m) ∷ rows) o = elim (Bool-cases (m.cluster_id == id)) [
  | inl e ↦ rw e (Owned-dropped w clusters id rows o.1)
  | inr e ↦ rw e (
    (o.0.0, ground (arith, e, o.0.1, lookup-erase id m.cluster_id clusters), o.0.2),
    Owned-dropped w clusters id rows o.1,
  )
]

drop_clusters-Owned :
    (w : World) (owner : ℕ) (cs : List (ℕ × Cluster)) (st : Domains)
    → IsOwned w st
    → IsOwned w (drop_clusters owner cs st)
unfolding drop_clusters
drop_clusters-Owned w owner [] st o = o
drop_clusters-Owned w owner ((id, c) ∷ cs) st o = drop_clusters-Owned w owner cs _ (
    if_keeps (IsOwned w) (same c.owner_user_id (some owner)) _ _
      (λ _. Owned-dropped w st.clusters id st.members o) (λ _. o))

releases-Owned :
    (w : World) (ns : List ℕ) (st : Domains) → IsOwned w st → IsOwned w (each release ns st)
unfolding each
releases-Owned w [] st o = o
releases-Owned w (n ∷ ns) st o = releases-Owned w ns (release n st) (release-Owned w n st o)

pub release_owned_by-Owned :
    (w : World) (ns : List ℕ) (owner : ℕ) (st : Domains)
    → IsOwned w st
    → IsOwned w (release_owned_by ns owner st)
unfolding release_owned_by
release_owned_by-Owned w ns owner st o =
    drop_clusters-Owned w owner (each release ns st).clusters (each release ns st)
      (releases-Owned w ns st o)

pub present-Owned :
    (w : World) (now record_id n : ℕ) (name : Text) (value : ℕ) (st : Domains)
    → IsOwned w st
    → IsOwned w (present w now record_id n name value st).0
unfolding present present_name
present-Owned w now record_id n name value st o =
    Authorization_keeps (λ (x : Domains × Answer). IsOwned w x.0) (authorize w n name st) _ _
      (λ t _.
        if_keeps (λ (x : Domains × Answer). IsOwned w x.0)
          (leb issuance_limit (count_recent now n st.challenges)) _ _ (λ _. o) (λ _. o))
      (λ _. o)

pub cleanup-Owned :
    (w : World) (n : ℕ) (name : Text) (value : ℕ) (st : Domains)
    → IsOwned w st
    → IsOwned w (cleanup w n name value st).0
unfolding cleanup remove_challenges
cleanup-Owned w n name value st o =
    Authorization_keeps (λ (x : Domains × Answer). IsOwned w x.0) (authorize w n name st) _ _
      (λ _ _. o) (λ _. o)
