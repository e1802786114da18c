-- ===== src/Access/Tests.antt =====
-- The access theorems at a fleet of three users, two groups and two nodes.
use virgo_fleet.Base.{ℕ, ◌+◌, ◌*◌, ◌≡◌, ◌≢◌, refl, true, false, [], ◌∷◌, none, arith, each}
use virgo_fleet.Access.Store.{
  User, Group, Node, GroupRole, member, manager, NodeRole, owner, admin, Store,
}
use virgo_fleet.Access.Queries.{
  put, list_direct, list_shared, list_group, list_accessible_nodes, can_user_access_node,
  is_node_owner, is_group_manager, get_user_by_email,
}
use virgo_fleet.Access.Changes.{
  collapse_direct_admins_into_group, remove_grant, delete_group, grant_group_node_access,
}
use virgo_fleet.Access.Handlers.{Caller, attempt}
use virgo_fleet.Access.NodeEvents.{group_node_add}
use virgo_fleet.Access.GroupEvents.{group_delete}
use virgo_fleet.Access.Events.{group_deleted, handle}
use virgo_fleet.Access.Reach.{reaches, can_user_access_node_lem}
use virgo_fleet.Access.Sharing.{group_node_add-Keeps}
use virgo_fleet.Access.Enforcement.{ended}
use virgo_fleet.Access.Enforcement.Nodes.{IsGenuine}
use virgo_fleet.Access.Enforcement.Events.{handle-IsEnforced}
use virgo_fleet.Access.Changes.{returns}
use virgo_fleet.Access.Registration.{
  Tokens, Registration, matches_node_token, registered_node, register_node, upsert_node,
}
use virgo_fleet.Access.Ownership.{IsKept, upsert_node-IsKept}
use virgo_fleet.Access.Tables.{database, row}

abbrev user : ℕ → User
user id = record { id = id; email = 10 * id; name = 10 * id; is_disabled = false }

abbrev node : ℕ → ℕ → Node
node id owner_id = record {
  node_id = id;
  owner_user_id = owner_id;
  name = id;
  domain_name = 0;
  token = 0;
  last_seen_at = 0;
}

abbrev group : ℕ → ℕ → Group
group id creator = record {
  id = id;
  name = 100 + id;
  description = none;
  created_by_user_id = creator;
}

-- User 1 owns node 41, which user 2 administers; user 1 manages group 31 with users 2 and 3 in it.
abbrev fleet : Store database
fleet = record {
  users = user 1 ∷ user 2 ∷ user 3 ∷ [];
  groups = group 31 1 ∷ [];
  nodes = node 41 1 ∷ node 42 3 ∷ [];
  members = row GroupRole 31 1 manager ∷ row GroupRole 31 2 member ∷ row GroupRole 31 3 member ∷ [];
  grants = row NodeRole 41 1 owner ∷ row NodeRole 41 2 admin ∷ [];
  shares = [];
}

abbrev caller : Caller
caller = record { user_id = 1; email = 10; is_authenticated = true }

-- After user 1 shares node 41 with the group.
abbrev with_share : Store database
with_share = record fleet {
  grants = row NodeRole 41 1 owner ∷ [];
  shares = row (Unit {0}) 31 41 tt ∷ [];
}

can_user_access_node_lem_example :
    can_user_access_node database 2 41 fleet ≡ reaches database 2 41 fleet
can_user_access_node_lem_example = can_user_access_node_lem database 2 41 fleet

admin_reaches : can_user_access_node database 2 41 fleet ≡ true
unfolding list_accessible_nodes can_user_access_node put list_direct list_shared list_group each
admin_reaches = refl

group_node_add-Keeps_example :
    can_user_access_node database 2 41 (group_node_add database caller 31 41 fleet).0 ≡ true
group_node_add-Keeps_example = group_node_add-Keeps database caller 31 41 2 41 fleet admin_reaches

-- The grant of user 2 is gone, the owner's is not.
collapses : (group_node_add database caller 31 41 fleet).0 ≡ with_share
unfolding group_node_add is_node_owner is_group_manager grant_group_node_access attempt
    collapse_direct_admins_into_group each remove_grant
collapses = refl

member_reaches : can_user_access_node database 3 41 with_share ≡ true
unfolding list_accessible_nodes can_user_access_node put list_direct list_shared list_group each
member_reaches = refl

group_gone :
    can_user_access_node database 3 41 (handle database caller (group_deleted 31) with_share).0
    ≡ false
unfolding handle group_delete attempt is_group_manager delete_group list_accessible_nodes
    can_user_access_node put list_direct list_shared list_group each
group_gone = refl

caller-IsGenuine : IsGenuine database caller with_share
unfolding get_user_by_email
caller-IsGenuine x e = ground (arith)

three : ◌≢◌ {A = ℕ} 3 0
three e = ground arith

handle-IsEnforced_example :
    ended 3 41 (handle database caller (group_deleted 31) with_share).1 ≡ true
handle-IsEnforced_example =
    handle-IsEnforced database 3 41 caller (group_deleted 31) with_share three caller-IsGenuine refl
      member_reaches group_gone

abbrev tokens : Tokens
tokens = record { hash = λ t. t + 500; is_well_formed = λ t. true }

-- Node 41 keeps token 5.
abbrev kept_node : Node
kept_node = record (node 41 1) { token = 505 }

abbrev inventory : Store database
inventory = record fleet { nodes = kept_node ∷ node 42 3 ∷ [] }

abbrev again : Registration
again = record { node_id = 41; name = 77; owner_user_id = 1; current_token = 5; proposed_token = 6 }

abbrev after : Store database
after = record inventory { nodes = registered_node tokens 99 6 again kept_node ∷ node 42 3 ∷ [] }

registers : upsert_node database tokens 99 8 again inventory ≡ returns after
unfolding upsert_node register_node matches_node_token
registers = refl

upsert_node-IsKept_example : IsKept database tokens 41 kept_node again after
upsert_node-IsKept_example =
    upsert_node-IsKept database tokens 99 8 41 kept_node again inventory after refl registers
