-- ===== src/Domains/Tests.antt =====
-- Runs of the domain service: the zone is "a.b"; nodes 1 and 3 belong to user 5, node 2 to user 6; the
-- cluster 1, "home.a.b", is of user 5, and node 1 is in it.
use virgo_fleet.Base.{
  ℕ, ◌≤◌, true, false, Option, none, some, [], ◌∷◌, ◌≡◌, refl, ◌==◌, if◌then◌else◌, lookup,
}
use virgo_fleet.Domains.Names.{is_public_address, parse_identifier}
use virgo_fleet.Domains.Reserved.{codes}
use virgo_fleet.Domains.State.{Cluster, NodeRow, Domains, World, find_cluster}
use virgo_fleet.Domains.Claims.{Request, already_taken, claimed, claim}
use virgo_fleet.Domains.Challenges.{authorize, count_recent, present, cleanup}
use virgo_fleet.Domains.Ownership.{Placed, Owned}
use virgo_fleet.Domains.Tables.{Table}
use virgo_fleet.Domains.Events.{node_claims, step}
use virgo_fleet.Domains.Claiming.{claim_unchanged}
use virgo_fleet.Domains.Steps.{IsSettled, step-IsSettled}
use virgo_fleet.Domains.Issuance.{cleanup-present}

abbrev row : ℕ → Option NodeRow
row n = some (record {
  owner_user_id = if n == 2 then some 6 else some 5;
  name = codes "n";
  domain_name = some (codes "home.a.b");
})

abbrev world : World
world = record {
  zone = some (codes "a.b");
  nodes = row;
  probe = λ fqdn ip. false;
  record_id = λ name. 9;
  records = λ name. [];
}

abbrev home : Cluster
home = record {
  label = codes "home";
  fqdn = codes "home.a.b";
  owner_user_id = some 5;
  lan_ip = none;
  public_ip = none;
  is_public = false;
  wildcard_record = none;
  apex_record = none;
}

abbrev store : Domains
store = record {
  clusters = (1, home) ∷ [];
  members = (1, record { cluster_id = 1; lan_ip = none; record_ids = [] }) ∷ [];
  challenges = [];
  log = [];
}

-- The node asks for "m.home.a.b".
abbrev asks : ℕ → Request
asks n = record {
  node_id = n;
  hostname = codes "M";
  domain_name = codes "home.a.b.";
  address = none;
  node_address = some (codes "192.168.1.4");
  public_ip = none;
}

private_address : is_public_address (some (codes "172.20.0.1")) ≡ false
unfolding is_public_address
private_address = refl

public_address : is_public_address (some (codes "172.32.0.1")) ≡ true
unfolding is_public_address
public_address = refl

deep_name : parse_identifier (some (codes "a.b")) (codes "x") (codes "m.home.a.b") ≡ none
unfolding parse_identifier
deep_name = refl

own_cluster : (claim world (asks 3) 2 store).1 ≡ claimed 1
unfolding claim lookup
own_cluster = refl

other_cluster : (claim world (asks 2) 2 store).1 ≡ already_taken
unfolding claim lookup
other_cluster = refl

store-IsSettled : IsSettled world store
unfolding Table Owned Placed lookup find_cluster
store-IsSettled = record { tidy = (refl, refl, tt); owned = ((home, refl, refl), tt) }

step-IsSettled_example : IsSettled world (step world (node_claims (asks 3) 2) store)
unfolding lookup
step-IsSettled_example = step-IsSettled world (node_claims (asks 3) 2) store refl store-IsSettled

claim_unchanged_example : (claim world (asks 2) 2 store).0 ≡ store
unfolding claim lookup
claim_unchanged_example = claim_unchanged world (asks 2) 2 store tt

cleanup-present_example :
    count_recent 200 1
      (cleanup world 1
        (codes "_acme-challenge.home.a.b")
        4
        (present world 100 8 1 (codes "_acme-challenge.home.a.b") 4 store).0).0.challenges
    ≤ count_recent 200 1 store.challenges
unfolding authorize lookup
cleanup-present_example =
    cleanup-present world 100 200 8 1 (codes "_acme-challenge.home.a.b")
      (codes "_acme-challenge.home.a.b") 4 store refl
