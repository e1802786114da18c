-- ===== src/Domains/Challenges.antt =====
-- services/domain_service.js: the certificate challenges (`authorize`, `present`, `cleanup`,
-- `cleanupAll`), the probe after them (`reprobe`), and the release of names.
use virgo_fleet.Base.{
  ℕ, ◌+◌, Bool, not, ◌&&◌, ◌||◌, Option, none, some, List, [], ◌∷◌, ◌++◌, same, ◌==◌, leb,
  if◌then◌else◌, length, keep, each, erase,
}
use virgo_fleet.Domains.Names.{Text, same_text, normalize_name, Identifier}
use virgo_fleet.Domains.Reserved.{codes}
use virgo_fleet.Domains.Records.{promote}
use virgo_fleet.Domains.Claims.{probe_target}
use virgo_fleet.Domains.State.{
  Cluster, Member, Challenge, Domains, World, emit, records_deleted, txt_written, get_membership,
  get_identifier, leave_cluster, cluster_records, Membership,
}

abbrev pub challenge_prefix : Text
challenge_prefix = codes "_acme-challenge."

-- 7 * 24 * 60 * 60 * 1000
abbrev pub issuance_window_ms : ℕ
issuance_window_ms = 604800000

abbrev pub issuance_limit : ℕ
issuance_limit = 12

pub data Refusal : Type 0 where
  no_claimed_domain not_allowed too_many_requests : Refusal

pub data Answer : Type 0 where
  presented : (record_id : ℕ) → Answer
  cleaned : (count : ℕ) → Answer
  refused : Refusal → Answer

-- The node's own name, where its stored name is in the cluster.
unfoldable pub node_name : Option Identifier → Cluster → Text
unfolding same_text
node_name none c = c.fqdn
node_name (some i) c = if same_text i.fqdn c.fqdn then i.node_fqdn else c.fqdn

unfoldable pub is_allowed : Option Identifier → Cluster → Text → Bool
unfolding node_name same_text
is_allowed i c requested =
    same_text (challenge_prefix ++ c.fqdn) requested
    || same_text (challenge_prefix ++ node_name i c) requested

-- `authorize`: the name that is allowed, or the refusal.
pub data Authorization : Type 0 where
  granted : Text → Authorization
  denied : Refusal → Authorization

unfoldable pub authorize : World → ℕ → Text → Domains → Authorization
unfolding is_allowed get_identifier get_membership normalize_name
authorize w node_id name st = elim (get_membership node_id st) [
  | none ↦ denied no_claimed_domain
  | some m ↦
      if is_allowed (get_identifier w node_id) m.cluster (normalize_name name)
      then granted (normalize_name name)
      else denied not_allowed
]

-- The challenges of the node that the count takes in.
abbrev pub is_recent : ℕ → ℕ → Challenge → Bool
is_recent now node_id c = c.node_id == node_id && leb now (c.created_at + issuance_window_ms)

unfoldable pub count_recent : ℕ → ℕ → List Challenge → ℕ
count_recent now node_id challenges = length (keep (is_recent now node_id) challenges)

unfoldable pub present_name : ℕ → ℕ → ℕ → Text → ℕ → Domains → Domains × Answer
unfolding count_recent
present_name now record_id node_id challenge value st =
    if leb issuance_limit (count_recent now node_id st.challenges)
    then (st, refused too_many_requests)
    else (
      emit (txt_written challenge value) (record st {
        challenges =
            st.challenges
            ++ record {
              node_id = node_id;
              name = challenge;
              value = value;
              record_id = record_id;
              created_at = now;
            }
              ∷ [];
      }),
      presented record_id,
    )

unfoldable pub present : World → ℕ → ℕ → ℕ → Text → ℕ → Domains → Domains × Answer
unfolding authorize present_name
present w now record_id node_id name value st = elim (authorize w node_id name st) [
  | granted challenge ↦ present_name now record_id node_id challenge value st
  | denied r ↦ (st, refused r)
]

-- The rows that `cleanup` finds, and the deletion of each with its record.
abbrev pub is_presented : ℕ → Text → ℕ → Challenge → Bool
is_presented node_id name value c =
    c.node_id == node_id && (same_text c.name name && c.value == value)

unfoldable pub record_ids : List Challenge → List ℕ
record_ids [] = []
record_ids (c ∷ cs) = c.record_id ∷ record_ids cs

unfoldable pub remove_challenges : (Challenge → Bool) → Domains → Domains
unfolding record_ids
remove_challenges p st =
    emit (records_deleted (record_ids (keep p st.challenges)))
      (record st { challenges = keep (λ c. not (p c)) st.challenges })

unfoldable pub cleanup : World → ℕ → Text → ℕ → Domains → Domains × Answer
unfolding authorize remove_challenges same_text
cleanup w node_id name value st = elim (authorize w node_id name st) [
  | granted challenge ↦ (
    remove_challenges (is_presented node_id challenge value) st,
    cleaned (length (keep (is_presented node_id challenge value) st.challenges)),
  )
  | denied r ↦ (st, refused r)
]

unfoldable pub cleanup_all : ℕ → Domains → Domains
unfolding remove_challenges
cleanup_all node_id st = remove_challenges (λ c. c.node_id == node_id) st

unfoldable pub release : ℕ → Domains → Domains
unfolding leave_cluster cleanup_all get_membership
release node_id st = elim (get_membership node_id st) [
  | none ↦ st
  | some m ↦ cleanup_all node_id (leave_cluster node_id m st)
]

abbrev pub drop_members : ℕ → List (ℕ × Member) → List (ℕ × Member)
drop_members cluster_id [] = []
drop_members cluster_id ((node_id, m) ∷ rest) =
    if m.cluster_id == cluster_id
    then drop_members cluster_id rest
    else (node_id, m) ∷ drop_members cluster_id rest

-- The loop of `releaseOwnedBy` over the clusters that are left of an owner; a deleted cluster takes its
-- members with it.
unfoldable pub drop_clusters : ℕ → List (ℕ × Cluster) → Domains → Domains
drop_clusters owner [] st = st
drop_clusters owner ((id, c) ∷ rest) st = drop_clusters owner rest (
    if same c.owner_user_id (some owner)
    then emit (records_deleted (cluster_records c))
        (record st { clusters = erase id st.clusters; members = drop_members id st.members })
    else st)

unfoldable pub release_owned_by : List ℕ → ℕ → Domains → Domains
unfolding release drop_clusters
release_owned_by owned_node_ids owner st =
    let released = each release owned_node_ids st in drop_clusters owner released.clusters released

-- The name that a probe of a node asks for.
abbrev pub probed_name : Option Identifier → Cluster → Text
probed_name none c = c.fqdn
probed_name (some i) c = i.node_fqdn

unfoldable pub reprobe_at : World → ℕ → Text → Membership → Domains → Domains
unfolding probe_target promote get_identifier
reprobe_at w node_id ip m st =
    if probe_target w (probed_name (get_identifier w node_id) m.cluster) (some ip)
      && not m.cluster.is_public
    then promote w node_id ip m st
    else st

-- `reprobe`: a cluster that answers under its name turns public.
unfoldable pub reprobe : World → ℕ → Option Text → Domains → Domains
unfolding reprobe_at get_membership
reprobe w node_id public_ip st = elim (get_membership node_id st) [
  | none ↦ st
  | some m ↦ elim public_ip [ none ↦ st | some ip ↦ reprobe_at w node_id ip m st ]
]
