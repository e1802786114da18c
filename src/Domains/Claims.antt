-- ===== src/Domains/Claims.antt =====
-- services/domain_service.js: `isAvailable` and `claim`.
use virgo_fleet.Base.{
  ℕ, Bool, true, false, not, ◌&&◌, ◌||◌, Option, none, some, is_some, [], ◌∷◌, ◌++◌, same,
  if◌then◌else◌, insert,
}
use virgo_fleet.Domains.Names.{
  Text, same_text, normalize_label, is_label, is_on_zone, Identifier, parse_identifier,
  is_public_address,
}
use virgo_fleet.Domains.State.{
  Cluster, NodeRow, Domains, World, Membership, find_cluster, get_membership, leave_cluster,
}
use virgo_fleet.Domains.Records.{sync_other_members}
use virgo_fleet.Domains.Reserved.{is_reserved}

pub data Availability : Type 0 where
  free existing invalid reserved taken : Availability

abbrev pub is_available_name : Availability → Bool
is_available_name free = true
is_available_name existing = true
is_available_name _ = false

abbrev pub is_unusable : Availability → Bool
is_unusable invalid = true
is_unusable reserved = true
is_unusable _ = false

abbrev pub zone_text : Option Text → Text
zone_text none = []
zone_text (some zone) = zone

abbrev pub owner_of : Option NodeRow → Option ℕ
owner_of none = none
owner_of (some row) = row.owner_user_id

-- Whether the owner of a node owns the cluster; a node that is not there has no say.
abbrev pub shares_owner : Option NodeRow → Cluster → Bool
shares_owner none c = false
shares_owner (some row) c = same row.owner_user_id c.owner_user_id

-- The availability of a well-formed name, by the cluster that has it.
unfoldable pub standing : World → Option ℕ → Option (ℕ × Cluster) → Availability
standing w node_id none = free
standing w none (some entry) = existing
standing w (some n) (some entry) = if shares_owner (w.nodes n) entry.1 then existing else taken

module _ (w : World) where
  unfoldable pub is_available : Text → Option ℕ → Domains → Availability
  unfolding normalize_label is_label is_reserved find_cluster standing
  is_available label node_id st =
      let normalized = normalize_label label in
      if not (is_label normalized)
      then invalid
      else (if is_reserved normalized
          then reserved
          else standing w node_id
              (find_cluster (normalized ++ b'.' ∷ zone_text w.zone) st.clusters))

  -- `probeTarget`: only a public address is probed.
  unfoldable pub probe_target : Text → Option Text → Bool
  unfolding is_public_address
  probe_target fqdn none = false
  probe_target fqdn (some ip) = is_public_address (some ip) && w.probe fqdn ip

-- What a node asks for.
pub record Request : Type 0 where
  pub node_id : ℕ
  pub hostname : Text
  pub domain_name : Text
  pub address : Option Text
  pub node_address : Option Text
  pub public_ip : Option Text

pub data Outcome : Type 0 where
  skipped not_usable already_taken : Outcome
  claimed : (cluster_id : ℕ) → Outcome

abbrev pub or_address : Option Text → Option Text → Option Text
or_address none old = old
or_address (some t) old = some t

-- `this.isPublicAddress(publicIp) ? publicIp : old`
abbrev pub public_or : Option Text → Option Text → Option Text
public_or ip old = if is_public_address ip then ip else old

unfoldable pub new_cluster : World → Identifier → Request → Bool → Cluster
unfolding is_public_address
new_cluster w i r probed = record {
  label = i.label;
  fqdn = i.fqdn;
  owner_user_id = owner_of (w.nodes r.node_id);
  lan_ip = r.address;
  public_ip = public_or r.public_ip none;
  is_public = probed;
  wildcard_record = none;
  apex_record = none;
}

unfoldable pub refreshed_cluster : Request → Bool → Cluster → Cluster
unfolding is_public_address
refreshed_cluster r probed c = record c {
  lan_ip = or_address r.address c.lan_ip;
  public_ip = public_or r.public_ip c.public_ip;
  is_public = c.is_public || probed;
}

-- The cluster is there before the claim, or is created under a new id.
unfoldable pub put_cluster :
    World → Identifier → Request → Bool → Option (ℕ × Cluster) → ℕ → Domains → ℕ × Domains
unfolding new_cluster refreshed_cluster
put_cluster w i r probed none new_id st =
    (new_id, record st { clusters = insert new_id (new_cluster w i r probed) st.clusters })
put_cluster w i r probed (some entry) new_id st = (
  entry.0,
  record st { clusters = insert entry.0 (refreshed_cluster r probed entry.1) st.clusters },
)

-- The node's place in the cluster: a new one, or the address of the one it has.
unfoldable pub put_member : Request → Option Membership → Bool → ℕ → Domains → Domains
put_member r none joined cluster_id st = record st {
  members =
      insert r.node_id
        (record { cluster_id = cluster_id; lan_ip = r.node_address; record_ids = [] }) st.members;
}
put_member r (some m) joined cluster_id st =
    if joined
    then record st {
      members = insert r.node_id (record m.member { lan_ip = r.node_address }) st.members;
    }
    else record st {
      members =
          insert r.node_id
            (record { cluster_id = cluster_id; lan_ip = r.node_address; record_ids = [] })
            st.members;
    }

-- `membership?.Cluster?.fqdn === fqdn`
unfoldable pub is_joined : Text → Option Membership → Bool
unfolding same_text
is_joined fqdn none = false
is_joined fqdn (some m) = same_text m.cluster.fqdn fqdn

unfoldable pub leave_other : ℕ → Option Membership → Bool → Domains → Domains
unfolding leave_cluster
leave_other node_id none joined st = st
leave_other node_id (some m) joined st = if joined then st else leave_cluster node_id m st

-- The refusal of a name that the node has not joined.
unfoldable pub refusal : World → Identifier → Request → Domains → Option Outcome
unfolding is_available find_cluster same_text
refusal w i r st =
    let availability = is_available w i.label (some r.node_id) st in
    if not (is_available_name availability)
      || (is_some (find_cluster i.fqdn st.clusters) && same_text i.node_fqdn i.fqdn)
    then some (if is_unusable availability then not_usable else already_taken)
    else none

-- `cluster.target` was not public and the claim found it to be.
abbrev pub is_promoted : Option (ℕ × Cluster) → Bool → Bool
is_promoted none probed = false
is_promoted (some entry) probed = not entry.1.is_public && probed

-- The records of the other members follow a cluster that turned public.
unfoldable pub sync_promoted : World → Request → Bool → Option (ℕ × Cluster) → Domains → Domains
unfolding sync_other_members refreshed_cluster
sync_promoted w r probed none st = st
sync_promoted w r probed (some entry) st =
    if is_promoted (some entry) probed
    then sync_other_members w entry.0 (refreshed_cluster r probed entry.1) r.node_id st
    else st

-- The claim of a name that is not refused, by the membership that the node has and the cluster that has
-- the name.
unfoldable pub claim_with :
    World
    → Identifier
    → Request
    → ℕ
    → Option Membership
    → Option (ℕ × Cluster)
    → Domains
    → Domains × Outcome
unfolding is_joined leave_other put_cluster put_member probe_target is_public_address sync_promoted
claim_with w i r new_id membership cluster st =
    let joined = is_joined i.fqdn membership in
    let left = leave_other r.node_id membership joined st in
    let probed = is_public_address r.address || probe_target w i.node_fqdn r.public_ip in
    let placed = put_cluster w i r probed cluster new_id left in
    (
      sync_promoted w r probed cluster (put_member r membership joined placed.0 placed.1),
      claimed placed.0,
    )

unfoldable pub claim_name : World → Identifier → Request → ℕ → Domains → Domains × Outcome
unfolding claim_with find_cluster get_membership
claim_name w i r new_id st =
    claim_with w i r new_id (get_membership r.node_id st) (find_cluster i.fqdn st.clusters) st

unfoldable pub claim_identifier : World → Identifier → Request → ℕ → Domains → Domains × Outcome
unfolding claim_name refusal is_joined get_membership
claim_identifier w i r new_id st =
    if is_joined i.fqdn (get_membership r.node_id st)
    then claim_name w i r new_id st
    else (elim (refusal w i r st) [
      | none ↦ claim_name w i r new_id st
      | some outcome ↦ (st, outcome)
    ])

unfoldable pub claim : World → Request → ℕ → Domains → Domains × Outcome
unfolding claim_identifier is_on_zone normalize_label parse_identifier
claim w r new_id st =
    if not (is_on_zone w.zone r.domain_name)
    then (st, skipped)
    else (elim (normalize_label r.hostname) [
      | [] ↦ (st, skipped)
      | c ∷ cs ↦ elim (parse_identifier w.zone r.hostname r.domain_name) [
        | none ↦ (st, skipped)
        | some i ↦ claim_identifier w i r new_id st
      ]
    ])
