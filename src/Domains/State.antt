-- ===== src/Domains/State.antt =====
-- services/domain_service.js: the clusters, their members and the challenges, and what the service asks
-- of the DNS provider. Ids of rows and of DNS records, node ids and user ids are numbers. An empty
-- address or name is none. A call of the provider succeeds; one that fails ends the operation, which is not modelled.
use virgo_fleet.Base.{
  ℕ, Bool, true, false, Option, none, some, List, [], ◌∷◌, ◌++◌, ◌==◌, if◌then◌else◌, lookup, erase,
}
use virgo_fleet.Domains.Names.{Text, same_text, Identifier, parse_identifier}

pub record Cluster : Type 0 where
  pub label : Text
  pub fqdn : Text
  pub owner_user_id : Option ℕ
  pub lan_ip : Option Text
  pub public_ip : Option Text
  pub is_public : Bool
  pub wildcard_record : Option ℕ
  pub apex_record : Option ℕ

pub record Member : Type 0 where
  pub cluster_id : ℕ
  pub lan_ip : Option Text
  pub record_ids : List ℕ

pub record Challenge : Type 0 where
  pub node_id : ℕ
  pub name : Text
  pub value : ℕ
  pub record_id : ℕ
  pub created_at : ℕ

pub record NodeRow : Type 0 where
  pub owner_user_id : Option ℕ
  pub name : Text
  pub domain_name : Option Text

pub data RecordKind : Type 0 where
  a aaaa cname other : RecordKind

pub data Effect : Type 0 where
  records_deleted : List ℕ → Effect
  a_written : (name address : Text) → Effect
  txt_written : (name : Text) (value : ℕ) → Effect

-- `members` is keyed by node id, which is unique in its table.
pub record Domains : Type 0 where
  pub clusters : List (ℕ × Cluster)
  pub members : List (ℕ × Member)
  pub challenges : List Challenge
  pub log : List Effect

-- What the service reads of the rest: the zone, the nodes, the answer of a TLS probe of an address for
-- a name (is the certificate the name's own), the ids that the provider gives, and its records.
pub record World : Type 0 where
  pub zone : Option Text
  pub nodes : ℕ → Option NodeRow
  pub probe : Text → Text → Bool
  pub record_id : Text → ℕ
  pub records : Text → List (ℕ × RecordKind)

abbrev pub emit : Effect → Domains → Domains
emit e st = record st { log = e ∷ st.log }

-- `Cluster.findOne({ where: { fqdn } })`
unfoldable pub find_cluster : Text → List (ℕ × Cluster) → Option (ℕ × Cluster)
unfolding same_text
find_cluster fqdn [] = none
find_cluster fqdn (entry ∷ rest) =
    if same_text entry.1.fqdn fqdn then some entry else find_cluster fqdn rest

pub record Membership : Type 0 where
  pub member : Member
  pub cluster : Cluster

-- A member of a cluster that is not there has none; the tables' foreign key rules it out.
unfoldable pub get_membership : ℕ → Domains → Option Membership
get_membership node_id st = elim (lookup node_id st.members) [
  | none ↦ none
  | some m ↦ elim (lookup m.cluster_id st.clusters) [
    | none ↦ none
    | some c ↦ some (record { member = m; cluster = c })
  ]
]

-- `ClusterMember.count({ where: { clusterId } })`, as a test.
unfoldable pub has_member : ℕ → List (ℕ × Member) → Bool
has_member cluster_id [] = false
has_member cluster_id (entry ∷ rest) =
    if entry.1.cluster_id == cluster_id then true else has_member cluster_id rest

abbrev pub ids_of : Option ℕ → List ℕ
ids_of none = []
ids_of (some id) = id ∷ []

abbrev pub cluster_records : Cluster → List ℕ
cluster_records c = ids_of c.wildcard_record ++ ids_of c.apex_record

-- The identifier of a node's stored name.
unfoldable pub get_identifier : World → ℕ → Option Identifier
unfolding parse_identifier
get_identifier w node_id = elim (w.nodes node_id) [
  | none ↦ none
  | some row ↦ elim row.domain_name [
    | none ↦ none
    | some domain_name ↦ parse_identifier w.zone row.name domain_name
  ]
]

-- `leaveCluster`
unfoldable pub leave_cluster : ℕ → Membership → Domains → Domains
unfolding has_member
leave_cluster node_id m st =
    let gone =
      emit (records_deleted m.member.record_ids)
        (record st { members = erase node_id st.members }) in
    if has_member m.member.cluster_id gone.members
    then gone
    else emit (records_deleted (cluster_records m.cluster))
        (record gone { clusters = erase m.member.cluster_id gone.clusters })
