-- ===== src/Domains/Records.antt =====
-- services/domain_service.js: the DNS records of clusters and of their members (`syncMemberRecords`,
-- `syncOtherMembers`, `syncRecords`, `replaceConflicting`, `hasLegacyMember`).
use virgo_fleet.Base.{
  ℕ, Bool, true, false, not, ◌&&◌, ◌||◌, Option, none, some, List, [], ◌∷◌, ◌==◌, if◌then◌else◌,
  has, keep, insert,
}
use virgo_fleet.Domains.Names.{Text, same_text, Identifier, is_public_address}
use virgo_fleet.Domains.State.{
  Cluster, Member, RecordKind, aaaa, cname, records_deleted, a_written, Domains, World, emit,
  Membership, get_membership, get_identifier, ids_of,
}

-- The records at a name that an A record cannot stand beside.
abbrev pub is_conflicting : RecordKind → Bool
is_conflicting aaaa = true
is_conflicting cname = true
is_conflicting _ = false

unfoldable pub conflicting_ids : List (ℕ × RecordKind) → List ℕ
conflicting_ids [] = []
conflicting_ids (entry ∷ rest) =
    if is_conflicting entry.1 then entry.0 ∷ conflicting_ids rest else conflicting_ids rest

-- `replaceConflicting(name, 'A')` and `upsertA(name, address)`
unfoldable pub write_a : World → Text → Text → Domains → Domains
unfolding conflicting_ids
write_a w name address st =
    emit (a_written name address) (emit (records_deleted (conflicting_ids (w.records name))) st)

abbrev pub wildcard : Text → Text
wildcard name = b'*' ∷ b'.' ∷ name

abbrev pub or_else : Option Text → Option Text → Option Text
or_else none other = other
or_else (some t) other = some t

-- The address that the records of a member, or of a cluster, lead to.
abbrev pub target_address : Cluster → Option Text → Option Text
target_address c lan_ip = if c.is_public then or_else c.public_ip lan_ip else lan_ip

-- The node's own name in the cluster; a node that has the cluster's name itself has none.
unfoldable pub own_name : Option Identifier → Cluster → Option Text
unfolding same_text
own_name none c = none
own_name (some i) c =
    if same_text i.fqdn c.fqdn && not (same_text i.node_fqdn c.fqdn) then some i.node_fqdn else none

-- The name and the address to write, where all is known.
abbrev pub to_write : Option Text → Option Text → Option Text → Option (Text × Text)
to_write (some name) (some lan_ip) (some address) = some (name, address)
to_write _ _ _ = none

unfoldable pub write_member_records : World → Option (Text × Text) → Domains → Domains × List ℕ
unfolding write_a
write_member_records w none st = (st, [])
write_member_records w (some (name, address)) st = (
  write_a w (wildcard name) address (write_a w name address st),
  w.record_id name ∷ w.record_id (wildcard name) ∷ [],
)

unfoldable pub sync_member_records : World → ℕ → Member → Cluster → Domains → Domains
unfolding write_member_records own_name get_identifier
sync_member_records w node_id m c st =
    let written =
      write_member_records w
        (to_write (own_name (get_identifier w node_id) c) m.lan_ip (target_address c m.lan_ip))
        st in
    let cleared =
      emit (records_deleted (keep (λ id. not (has written.1 id)) m.record_ids)) written.0 in
    record cleared {
      members = insert node_id (record m { record_ids = written.1 }) cleared.members;
    }

-- The loop of `syncOtherMembers` over the members that the query gave.
unfoldable pub sync_members : World → ℕ → Cluster → ℕ → List (ℕ × Member) → Domains → Domains
unfolding sync_member_records
sync_members w cluster_id c node_id [] st = st
sync_members w cluster_id c node_id ((other, m) ∷ rest) st =
    sync_members w cluster_id c node_id rest (
      if m.cluster_id == cluster_id && not (other == node_id)
      then sync_member_records w other m c st
      else st)

unfoldable pub sync_other_members : World → ℕ → Cluster → ℕ → Domains → Domains
unfolding sync_members
sync_other_members w cluster_id c node_id st = sync_members w cluster_id c node_id st.members st

-- `hasLegacyMember`: a member without a name of its own under the cluster's.
unfoldable pub is_legacy : Option Identifier → Cluster → Bool
unfolding same_text
is_legacy none c = true
is_legacy (some i) c = same_text i.node_fqdn c.fqdn

unfoldable pub has_legacy_member : World → ℕ → Cluster → List (ℕ × Member) → Bool
unfolding is_legacy get_identifier
has_legacy_member w cluster_id c [] = false
has_legacy_member w cluster_id c ((node_id, m) ∷ rest) =
    (m.cluster_id == cluster_id && is_legacy (get_identifier w node_id) c)
    || has_legacy_member w cluster_id c rest

abbrev pub with_records : Cluster → ℕ → Option ℕ → Cluster
with_records c id apex = record c { wildcard_record = some id; apex_record = apex }

-- The cluster's own records: the wildcard, and the name itself while a legacy member needs it.
unfoldable pub write_apex : World → ℕ → Cluster → Text → Domains → Domains
unfolding write_a
write_apex w cluster_id c address st =
    let stored = with_records c (w.record_id (wildcard c.fqdn)) (some (w.record_id c.fqdn)) in
    let written = write_a w c.fqdn address st in
    record written { clusters = insert cluster_id stored written.clusters }

unfoldable pub drop_apex : World → ℕ → Cluster → Domains → Domains
drop_apex w cluster_id c st =
    let stored = with_records c (w.record_id (wildcard c.fqdn)) none in
    let cleared = emit (records_deleted (ids_of c.apex_record)) st in
    record cleared { clusters = insert cluster_id stored cleared.clusters }

unfoldable pub write_cluster_records : World → ℕ → Cluster → Text → Domains → Domains
unfolding write_a has_legacy_member write_apex drop_apex
write_cluster_records w cluster_id c address st =
    let written = write_a w (wildcard c.fqdn) address st in
    if has_legacy_member w cluster_id c written.members
    then write_apex w cluster_id c address written
    else drop_apex w cluster_id c written

-- A public address is taken over; it is stored with the records.
unfoldable pub with_public_ip : Option Text → Cluster → Cluster
unfolding is_public_address
with_public_ip public_ip c =
    if is_public_address public_ip then record c { public_ip = public_ip } else c

unfoldable pub sync_records : World → ℕ → Option Text → Domains → Domains
unfolding with_public_ip sync_member_records write_cluster_records get_membership
sync_records w node_id public_ip st = elim (get_membership node_id st) [
  | none ↦ st
  | some m ↦
      let c = with_public_ip public_ip m.cluster in
      elim (target_address c c.lan_ip) [
        | none ↦ st
        | some address ↦
            write_cluster_records w m.member.cluster_id c address
              (sync_member_records w node_id m.member c st)
      ]
]

-- What `reprobe` does to a cluster that turned public.
unfoldable pub promote : World → ℕ → Text → Membership → Domains → Domains
unfolding sync_other_members sync_records
promote w node_id ip m st =
    let c = record m.cluster { is_public = true; public_ip = some ip } in
    let saved = record st { clusters = insert m.member.cluster_id c st.clusters } in
    sync_records w node_id (some ip) (sync_other_members w m.member.cluster_id c node_id saved)
