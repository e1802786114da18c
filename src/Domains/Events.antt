-- ===== src/Domains/Events.antt =====
-- modules/node/domain.js, modules/node/acme.js and the timer of `scheduleReprobe`: what happens to the
-- domain service, as steps. The stored name of a node is the one that `setNodeIdentifier` has written
-- before a claim.
use virgo_fleet.Base.{ℕ, Option, List}
use virgo_fleet.Domains.Names.{Text}
use virgo_fleet.Domains.State.{Domains, World}
use virgo_fleet.Domains.Records.{sync_records}
use virgo_fleet.Domains.Claims.{Request, Outcome, claimed, claim}
use virgo_fleet.Domains.Challenges.{present, cleanup, reprobe, release, release_owned_by}

pub data Event : Type 0 where
  node_claims : Request → (new_id : ℕ) → Event
  node_presents : (now record_id node_id : ℕ) (name : Text) (value : ℕ) → Event
  node_cleans_up : (node_id : ℕ) (name : Text) (value : ℕ) → Event
  probe_is_due : (node_id : ℕ) → (public_ip : Option Text) → Event
  node_is_removed : (node_id : ℕ) → Event
  owner_is_removed : (owned_node_ids : List ℕ) → (owner : ℕ) → Event

-- The records follow a claim that gave a cluster.
unfoldable pub after_claim : World → Request → Domains × Outcome → Domains
unfolding sync_records
after_claim w r (st, claimed id) = sync_records w r.node_id r.public_ip st
after_claim w r (st, _) = st

unfoldable pub step : World → Event → Domains → Domains
unfolding after_claim claim present cleanup reprobe release release_owned_by
step w (node_claims r new_id) st = after_claim w r (claim w r new_id st)
step w (node_presents now record_id node_id name value) st =
    (present w now record_id node_id name value st).0
step w (node_cleans_up node_id name value) st = (cleanup w node_id name value st).0
step w (probe_is_due node_id public_ip) st = reprobe w node_id public_ip st
step w (node_is_removed node_id) st = release node_id st
step w (owner_is_removed owned_node_ids owner) st = release_owned_by owned_node_ids owner st
