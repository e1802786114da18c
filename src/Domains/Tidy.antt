-- ===== src/Domains/Tidy.antt =====
-- services/domain_service.js: every operation keeps the table of clusters a table.
use mathlib.Core.Path.{subst}
use virgo_fleet.Base.{
  ℕ, Bool, true, not, ◌&&◌, Option, none, some, List, [], ◌∷◌, ◌≡◌, refl, sym, ap, inl, inr, same,
  leb, ◌==◌, ◌==◌, if_keeps, Option_keeps, each, lookup, insert, erase, ◌∙◌,
}
use virgo_fleet.Domains.Names.{
  Text, Identifier, is_public_address, is_on_zone, normalize_label, parse_identifier,
}
use virgo_fleet.Domains.State.{
  Cluster, Member, Domains, World, Membership, find_cluster, get_membership, get_identifier,
  leave_cluster, has_member,
}
use virgo_fleet.Domains.Records.{
  write_a, write_apex, drop_apex, write_cluster_records, has_legacy_member, with_public_ip,
  target_address, sync_members, sync_other_members, sync_records, promote,
}
use virgo_fleet.Domains.Claims.{
  Request, Outcome, probe_target, new_cluster, refreshed_cluster, put_cluster, put_member,
  is_joined, leave_other, refusal, is_promoted, sync_promoted, claim_with, claim_name,
  claim_identifier, claim,
}
use virgo_fleet.Domains.Challenges.{
  Answer, remove_challenges, cleanup_all, release, reprobe, reprobe_at, probed_name, drop_clusters,
  release_owned_by, present, present_name, authorize, count_recent, issuance_limit, cleanup,
}
use virgo_fleet.Domains.Ownership.{sync_member-clusters}
use virgo_fleet.Domains.Joining.{membership-some, find-fqdn}
use virgo_fleet.Domains.Claiming.{Text_keeps}
use virgo_fleet.Domains.Issuance.{Authorization_keeps}
use virgo_fleet.Domains.Tables.{Table, Fits, Table-insert, Table-erase, Fits-erase, found_row}

abbrev pub IsTidy : Domains → Type 0
IsTidy st = Table st.clusters

leave-Tidy : (n : ℕ) (m : Membership) (st : Domains) → IsTidy st → IsTidy (leave_cluster n m st)
unfolding leave_cluster
leave-Tidy n m st t =
    if_keeps IsTidy (has_member m.member.cluster_id (erase n st.members)) _ _ (λ _. t)
      (λ _. Table-erase m.member.cluster_id st.clusters t)

sync_members-clusters :
    (w : World) (id : ℕ) (c : Cluster) (n : ℕ) (rows : List (ℕ × Member)) (st : Domains)
    → (sync_members w id c n rows st).clusters ≡ st.clusters
unfolding sync_members
sync_members-clusters w id c n [] st = refl
sync_members-clusters w id c n ((k, m) ∷ rows) st =
    sync_members-clusters w id c n rows _
    ∙ if_keeps (λ (x : Domains). x.clusters ≡ st.clusters) (m.cluster_id == id && not (k == n)) _ _
        (λ _. sync_member-clusters w k m c st) (λ _. refl)

sync_other-Tidy :
    (w : World) (id : ℕ) (c : Cluster) (n : ℕ) (st : Domains)
    → IsTidy st
    → IsTidy (sync_other_members w id c n st)
unfolding sync_other_members
sync_other-Tidy w id c n st t = rw (sync_members-clusters w id c n st.members st) t

write_cluster-Tidy :
    (w : World) (id : ℕ) (c : Cluster) (address : Text) (st : Domains)
    → Fits id c.fqdn st.clusters
    → IsTidy st
    → IsTidy (write_cluster_records w id c address st)
unfolding write_cluster_records write_apex drop_apex write_a
write_cluster-Tidy w id c address st f t =
    if_keeps IsTidy (has_legacy_member w id c st.members) _ _
      (λ _. Table-insert id _ st.clusters t f) (λ _. Table-insert id _ st.clusters t f)

with_public_ip-fqdn : (ip : Option Text) (c : Cluster) → c.fqdn ≡ (with_public_ip ip c).fqdn
unfolding with_public_ip
with_public_ip-fqdn ip c =
    if_keeps (λ (d : Cluster). c.fqdn ≡ d.fqdn) (is_public_address ip) _ _ (λ _. refl) (λ _. refl)

pub sync_records-Tidy :
    (w : World) (n : ℕ) (ip : Option Text) (st : Domains)
    → IsTidy st
    → IsTidy (sync_records w n ip st)
unfolding sync_records
sync_records-Tidy w n ip st t =
    Option_keeps IsTidy (get_membership n st) _ _ (λ _. t)
      (λ m e.
        Option_keeps IsTidy
          (target_address (with_public_ip ip m.cluster) (with_public_ip ip m.cluster).lan_ip) _ _
          (λ _. t)
          (λ address _.
            let same_rows = sync_member-clusters w n m.member (with_public_ip ip m.cluster) st in
            write_cluster-Tidy w m.member.cluster_id (with_public_ip ip m.cluster) address _
              (inl (
                m.cluster,
                ap (lookup m.member.cluster_id) same_rows ∙ (membership-some n st m e).1,
                with_public_ip-fqdn ip m.cluster,
              ))
              (subst Table (sym same_rows) t)))

promote-Tidy :
    (w : World) (n : ℕ) (address : Text) (m : Membership) (st : Domains)
    → lookup m.member.cluster_id st.clusters ≡ some m.cluster
    → IsTidy st
    → IsTidy (promote w n address m st)
unfolding promote
promote-Tidy w n address m st h t =
    sync_records-Tidy w n (some address) (sync_other_members w m.member.cluster_id turned n saved) (
      sync_other-Tidy w m.member.cluster_id turned n saved
        (Table-insert m.member.cluster_id turned st.clusters t (inl (m.cluster, h, refl))))
  where
    turned : Cluster
    turned = record m.cluster { is_public = true; public_ip = some address }

    saved : Domains
    saved = record st { clusters = insert m.member.cluster_id turned st.clusters }

pub reprobe-Tidy :
    (w : World) (n : ℕ) (ip : Option Text) (st : Domains) → IsTidy st → IsTidy (reprobe w n ip st)
unfolding reprobe reprobe_at
reprobe-Tidy w n ip st t =
    Option_keeps IsTidy (get_membership n st) _ _ (λ _. t)
      (λ m e.
        Option_keeps IsTidy ip _ _ (λ _. t)
          (λ address _.
            if_keeps IsTidy
              (probe_target w (probed_name (get_identifier w n) m.cluster) (some address)
                && not m.cluster.is_public)
              _ _ (λ _. promote-Tidy w n address m st (membership-some n st m e).1 t) (λ _. t)))

pub release-Tidy : (n : ℕ) (st : Domains) → IsTidy st → IsTidy (release n st)
unfolding release cleanup_all remove_challenges
release-Tidy n st t =
    Option_keeps IsTidy (get_membership n st) _ _ (λ _. t) (λ m _. leave-Tidy n m st t)

drop_clusters-Tidy :
    (owner : ℕ) (cs : List (ℕ × Cluster)) (st : Domains)
    → IsTidy st
    → IsTidy (drop_clusters owner cs st)
unfolding drop_clusters
drop_clusters-Tidy owner [] st t = t
drop_clusters-Tidy owner ((id, c) ∷ cs) st t = drop_clusters-Tidy owner cs _ (
    if_keeps IsTidy (same c.owner_user_id (some owner)) _ _ (λ _. Table-erase id st.clusters t)
      (λ _. t))

releases-Tidy : (ns : List ℕ) (st : Domains) → IsTidy st → IsTidy (each release ns st)
unfolding each
releases-Tidy [] st t = t
releases-Tidy (n ∷ ns) st t = releases-Tidy ns (release n st) (release-Tidy n st t)

pub release_owned_by-Tidy :
    (ns : List ℕ) (owner : ℕ) (st : Domains) → IsTidy st → IsTidy (release_owned_by ns owner st)
unfolding release_owned_by
release_owned_by-Tidy ns owner st t =
    drop_clusters-Tidy owner (each release ns st).clusters (each release ns st)
      (releases-Tidy ns st t)

pub present-Tidy :
    (w : World) (now record_id n : ℕ) (name : Text) (value : ℕ) (st : Domains)
    → IsTidy st
    → IsTidy (present w now record_id n name value st).0
unfolding present present_name
present-Tidy w now record_id n name value st t =
    Authorization_keeps (λ (x : Domains × Answer). IsTidy x.0) (authorize w n name st) _ _
      (λ _ _.
        if_keeps (λ (x : Domains × Answer). IsTidy x.0)
          (leb issuance_limit (count_recent now n st.challenges)) _ _ (λ _. t) (λ _. t))
      (λ _. t)

pub cleanup-Tidy :
    (w : World) (n : ℕ) (name : Text) (value : ℕ) (st : Domains)
    → IsTidy st
    → IsTidy (cleanup w n name value st).0
unfolding cleanup remove_challenges
cleanup-Tidy w n name value st t =
    Authorization_keeps (λ (x : Domains × Answer). IsTidy x.0) (authorize w n name st) _ _
      (λ _ _. t) (λ _. t)

left-Tidy :
    (n : ℕ) (mo : Option Membership) (joined : Bool) (st : Domains)
    → IsTidy st
    → IsTidy (leave_other n mo joined st)
unfolding leave_other
left-Tidy n none joined st t = t
left-Tidy n (some m) joined st t = if_keeps IsTidy joined _ _ (λ _. t) (λ _. leave-Tidy n m st t)

left-Fits :
    (n id : ℕ) (u : Text) (mo : Option Membership) (joined : Bool) (st : Domains)
    → IsTidy st
    → Fits id u st.clusters
    → Fits id u (leave_other n mo joined st).clusters
unfolding leave_other leave_cluster
left-Fits n id u none joined st t f = f
left-Fits n id u (some m) joined st t f =
    if_keeps (λ (x : Domains). Fits id u x.clusters) joined _ _ (λ _. f)
      (λ _.
        if_keeps (λ (x : Domains). Fits id u x.clusters)
          (has_member m.member.cluster_id (erase n st.members)) _ _ (λ _. f)
          (λ _. Fits-erase id m.member.cluster_id u st.clusters t f))

member-Tidy :
    (r : Request) (mo : Option Membership) (joined : Bool) (id : ℕ) (st : Domains)
    → IsTidy st
    → IsTidy (put_member r mo joined id st)
unfolding put_member
member-Tidy r none joined id st t = t
member-Tidy r (some m) joined id st t = if_keeps IsTidy joined _ _ (λ _. t) (λ _. t)

promoted-Tidy :
    (w : World) (r : Request) (probed : Bool) (found : Option (ℕ × Cluster)) (st : Domains)
    → IsTidy st
    → IsTidy (sync_promoted w r probed found st)
unfolding sync_promoted
promoted-Tidy w r probed none st t = t
promoted-Tidy w r probed (some e) st t =
    if_keeps IsTidy (is_promoted (some e) probed) _ _
      (λ _. sync_other-Tidy w e.0 (refreshed_cluster r probed e.1) r.node_id st t) (λ _. t)

-- The id and the name that a claim saves a cluster under.
abbrev target_id : Option (ℕ × Cluster) → ℕ → ℕ
target_id none new_id = new_id
target_id (some e) new_id = e.0

put-Tidy :
    (w : World) (i : Identifier) (r : Request) (probed : Bool) (found : Option (ℕ × Cluster))
    (new_id : ℕ) (st : Domains)
    → ((e : ℕ × Cluster) → found ≡ some e → e.1.fqdn ≡ i.fqdn)
    → Fits (target_id found new_id) i.fqdn st.clusters
    → IsTidy st
    → IsTidy (put_cluster w i r probed found new_id st).1
unfolding put_cluster new_cluster refreshed_cluster
put-Tidy w i r probed none new_id st own f t = Table-insert new_id _ st.clusters t f
put-Tidy w i r probed (some e) new_id st own f t =
    Table-insert e.0 _ st.clusters t (subst (λ u. Fits e.0 u st.clusters) (sym (own e refl)) f)

module _ (w : World) (r : Request) (new_id : ℕ) (st : Domains) (t : IsTidy st)
    (fresh : lookup new_id st.clusters ≡ none) where
  target-Fits :
      (u : Text) (found : Option (ℕ × Cluster))
      → find_cluster u st.clusters ≡ found
      → Fits (target_id found new_id) u st.clusters
  target-Fits u none f = inr (fresh, f)
  target-Fits u (some e) f = inl (e.1, found_row u e st.clusters t f, find-fqdn u st.clusters e f)

  claim_with-Tidy :
      (i : Identifier) (mo : Option Membership) (found : Option (ℕ × Cluster))
      → find_cluster i.fqdn st.clusters ≡ found
      → IsTidy (claim_with w i r new_id mo found st).0
  unfolding claim_with
  claim_with-Tidy i mo found f = promoted-Tidy w r _ found _ (
      member-Tidy r mo (is_joined i.fqdn mo) _ _ (
        put-Tidy w i r _ found new_id _ (λ e q. find-fqdn i.fqdn st.clusters e (f ∙ q))
          (left-Fits r.node_id (target_id found new_id) i.fqdn mo (is_joined i.fqdn mo) st t
            (target-Fits i.fqdn found f))
          (left-Tidy r.node_id mo (is_joined i.fqdn mo) st t)))

  abbrev Kept : Domains × Outcome → Type 0
  Kept result = IsTidy result.0

  identifier-Tidy : (i : Identifier) → Kept (claim_identifier w i r new_id st)
  unfolding claim_identifier claim_name
  identifier-Tidy i =
      if_keeps Kept (is_joined i.fqdn (get_membership r.node_id st)) _ _ (λ _. named)
        (λ _. Option_keeps Kept (refusal w i r st) _ _ (λ _. named) (λ _ _. t))
    where
      named : Kept (claim_name w i r new_id st)
      named = claim_with-Tidy i (get_membership r.node_id st) (find_cluster i.fqdn st.clusters) refl

  pub claim-Tidy : IsTidy (claim w r new_id st).0
  unfolding claim
  claim-Tidy =
      if_keeps Kept (not (is_on_zone w.zone r.domain_name)) _ _ (λ _. t)
        (λ _. Text_keeps Kept (normalize_label r.hostname) _ _ t (
          Option_keeps Kept (parse_identifier w.zone r.hostname r.domain_name) _ _ (λ _. t)
            (λ i _. identifier-Tidy i)))
