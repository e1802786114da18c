-- ===== src/Domains/Steps.antt =====
-- services/domain_service.js with the handlers around it: an invariant of every step.
use virgo_fleet.Base.{none, ◌≡◌, lookup}
use virgo_fleet.Domains.State.{Domains, World}
use virgo_fleet.Domains.Claims.{
  Request, Outcome, skipped, not_usable, already_taken, claimed, claim,
}
use virgo_fleet.Domains.Events.{
  Event, node_claims, node_presents, node_cleans_up, probe_is_due, node_is_removed,
  owner_is_removed, after_claim, step,
}
use virgo_fleet.Domains.Ownership.{IsOwned}
use virgo_fleet.Domains.Tables.{Table-IsTable}
use virgo_fleet.Domains.Tidy.{
  IsTidy, sync_records-Tidy, claim-Tidy, present-Tidy, cleanup-Tidy, reprobe-Tidy, release-Tidy,
  release_owned_by-Tidy,
}
use virgo_fleet.Domains.Claiming.{claim-IsOwned}
use virgo_fleet.Domains.Keeping.{
  sync_records-Owned, reprobe-Owned, release-Owned, release_owned_by-Owned, present-Owned,
  cleanup-Owned,
}

-- A new cluster has a new id, which the database gives it.
abbrev pub IsAdmissible : Event → Domains → Type 0
IsAdmissible (node_claims r new_id) st = lookup new_id st.clusters ≡ none
IsAdmissible _ st = Unit

-- Ids and names of clusters are unique, and each member is in a cluster that is there and that the
-- owner of its node owns.
pub record IsSettled (w : World) (st : Domains) : Type 0 where
  pub tidy : IsTidy st
  pub owned : IsOwned w st

after_claim-Owned :
    (w : World) (r : Request) (x : Domains × Outcome)
    → IsOwned w x.0
    → IsOwned w (after_claim w r x)
unfolding after_claim
after_claim-Owned w r (st, claimed id) o = sync_records-Owned w r.node_id r.public_ip st o
after_claim-Owned w r (st, skipped) o = o
after_claim-Owned w r (st, not_usable) o = o
after_claim-Owned w r (st, already_taken) o = o

after_claim-Tidy :
    (w : World) (r : Request) (x : Domains × Outcome) → IsTidy x.0 → IsTidy (after_claim w r x)
unfolding after_claim
after_claim-Tidy w r (st, claimed id) t = sync_records-Tidy w r.node_id r.public_ip st t
after_claim-Tidy w r (st, skipped) t = t
after_claim-Tidy w r (st, not_usable) t = t
after_claim-Tidy w r (st, already_taken) t = t

-- Every step keeps the ids and the names of clusters unique, and each member in a cluster that is
-- there and that the owner of its node owns: a claim with the records that follow it, a challenge, its
-- cleanup, the probe, and the removal of a node or of an owner. The id of a new cluster is new.
pub step-IsSettled :
    (w : World) (e : Event) (st : Domains)
    → IsAdmissible e st
    → IsSettled w st
    → IsSettled w (step w e st)
unfolding step
step-IsSettled w (node_claims r new_id) st fresh s = record {
  tidy = after_claim-Tidy w r (claim w r new_id st) (claim-Tidy w r new_id st s.tidy fresh);
  owned =
      after_claim-Owned w r (claim w r new_id st)
        (claim-IsOwned w r new_id st s.owned (Table-IsTable st.clusters s.tidy) fresh);
}
step-IsSettled w (node_presents now record_id n name value) st a s = record {
  tidy = present-Tidy w now record_id n name value st s.tidy;
  owned = present-Owned w now record_id n name value st s.owned;
}
step-IsSettled w (node_cleans_up n name value) st a s = record {
  tidy = cleanup-Tidy w n name value st s.tidy;
  owned = cleanup-Owned w n name value st s.owned;
}
step-IsSettled w (probe_is_due n ip) st a s = record {
  tidy = reprobe-Tidy w n ip st s.tidy;
  owned = reprobe-Owned w n ip st s.owned;
}
step-IsSettled w (node_is_removed n) st a s = record {
  tidy = release-Tidy n st s.tidy;
  owned = release-Owned w n st s.owned;
}
step-IsSettled w (owner_is_removed ns owner) st a s = record {
  tidy = release_owned_by-Tidy ns owner st s.tidy;
  owned = release_owned_by-Owned w ns owner st s.owned;
}
