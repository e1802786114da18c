-- ===== src/Access/Queries.antt =====
-- src/services/data_service.js: what is read of the access tables. A node is joined by its
-- public id, which is unique, as its primary key is.
use virgo_fleet.Base.{
  ℕ, Bool, true, false, not, ◌&&◌, ◌||◌, List, [], ◌∷◌, Option, none, some, ◌==◌, if◌then◌else◌,
  first, any, keep, each, add, map, delete,
}
use virgo_fleet.Access.Store.{
  User, Group, Node, GroupRole, manager, Database, Store, find_user, find_group, find_node,
  is_member, is_granted, is_shared,
}

pub data Access : Type 0 where
  direct through_group : Access

pub record AccessibleNode : Type 0 where
  pub node_id : ℕ
  pub name : ℕ
  pub domain_name : ℕ
  pub last_seen_at : ℕ
  pub access : Access
  pub is_owner : Bool

abbrev pub is_manager : Option GroupRole → Bool
is_manager (some manager) = true
is_manager _ = false

-- `nodes.set(node.nodeId, …)`: the Map is the list of its values, each with its key.
unfoldable pub put : AccessibleNode → List AccessibleNode → List AccessibleNode
put a [] = a ∷ []
put a (b ∷ nodes) = if b.node_id == a.node_id then a ∷ nodes else b ∷ put a nodes

abbrev pub is_listed : ℕ → List AccessibleNode → Bool
is_listed node_id nodes = any (λ a. a.node_id == node_id) nodes

abbrev pub accessible : ℕ → Access → Node → AccessibleNode
accessible user_id access n = record {
  node_id = n.node_id;
  name = n.name;
  domain_name = n.domain_name;
  last_seen_at = n.last_seen_at;
  access = access;
  is_owner = n.owner_user_id == user_id;
}

unfoldable pub list_direct : ℕ → Node → List AccessibleNode → List AccessibleNode
list_direct user_id n nodes = put (accessible user_id direct n) nodes

unfoldable pub list_shared : ℕ → Node → List AccessibleNode → List AccessibleNode
list_shared user_id n nodes =
    if is_listed n.node_id nodes then nodes else put (accessible user_id through_group n) nodes

module _ (db : Database) where
  -- `user.Nodes`, `user.Groups`, `group.Nodes`, `node.Users`, `node.Groups`, `group.Users`
  abbrev pub nodes_of : ℕ → Store db → List Node
  nodes_of user_id st = keep (λ n. is_granted db n.node_id user_id st) st.nodes

  abbrev pub groups_of : ℕ → Store db → List Group
  groups_of user_id st = keep (λ g. is_member db g.id user_id st) st.groups

  abbrev pub nodes_of_group : ℕ → Store db → List Node
  nodes_of_group group_id st = keep (λ n. is_shared db group_id n.node_id st) st.nodes

  abbrev pub users_of_node : ℕ → Store db → List User
  users_of_node node_id st = keep (λ u. is_granted db node_id u.id st) st.users

  abbrev pub users_of_group : ℕ → Store db → List User
  users_of_group group_id st = keep (λ u. is_member db group_id u.id st) st.users

  unfoldable pub list_group : ℕ → Store db → Group → List AccessibleNode → List AccessibleNode
  list_group user_id st g nodes = each (list_shared user_id) (nodes_of_group g.id st) nodes

  unfoldable pub list_accessible_nodes : ℕ → Store db → List AccessibleNode
  list_accessible_nodes user_id st = elim (find_user db user_id st) [
    | none ↦ []
    | some u ↦
        each (list_group user_id st) (groups_of user_id st)
          (each (list_direct user_id) (nodes_of user_id st) [])
  ]

  unfoldable pub can_user_access_node : ℕ → ℕ → Store db → Bool
  can_user_access_node user_id node_id st = is_listed node_id (list_accessible_nodes user_id st)

  unfoldable pub is_node_owner : ℕ → ℕ → Store db → Bool
  is_node_owner user_id node_id st = elim (find_node db node_id st) [
    | none ↦ false
    | some n ↦ n.owner_user_id == user_id
  ]

  unfoldable pub is_group_manager : ℕ → ℕ → Store db → Bool
  is_group_manager user_id group_id st =
      if (user_id == 0) || (group_id == 0)
      then false
      else is_manager (db.user_groups.role group_id user_id st.members)

  unfoldable pub get_user_by_email : ℕ → Store db → Option User
  get_user_by_email email st = if email == 0 then none else first (λ u. u.email == email) st.users

  unfoldable pub list_group_member_user_ids : ℕ → Store db → List ℕ
  list_group_member_user_ids group_id st = elim (find_group db group_id st) [
    | none ↦ []
    | some g ↦ map (λ u. u.id) (users_of_group group_id st)
  ]

  unfoldable pub list_group_node_ids : ℕ → Store db → List ℕ
  list_group_node_ids group_id st = elim (find_group db group_id st) [
    | none ↦ []
    | some g ↦ map (λ n. n.node_id) (nodes_of_group group_id st)
  ]

  unfoldable pub list_node_member_user_ids : ℕ → Store db → List ℕ
  list_node_member_user_ids node_id st = elim (find_node db node_id st) [
    | none ↦ []
    | some n ↦
        each (λ (u : User) ids. add u.id ids) (users_of_node node_id st)
          (if n.owner_user_id == 0 then [] else n.owner_user_id ∷ [])
  ]

  unfoldable pub list_nodes_owned_by : ℕ → Store db → List ℕ
  list_nodes_owned_by user_id st =
      if user_id == 0
      then []
      else map (λ n. n.node_id) (keep (λ n. n.owner_user_id == user_id) st.nodes)

  -- The owners of the nodes that a user is an invited member of.
  unfoldable pub list_node_owners_for_member : ℕ → Store db → List ℕ
  list_node_owners_for_member user_id st =
      if user_id == 0
      then []
      else each
          (λ (n : Node) ids.
            if not (n.owner_user_id == 0) && not (n.owner_user_id == user_id)
            then add n.owner_user_id ids
            else ids)
          (nodes_of user_id st) []

  affected_by_node : Store db → Node → List ℕ → List ℕ
  affected_by_node st n ids =
      let owners = if n.owner_user_id == 0 then ids else add n.owner_user_id ids in
      let direct_users = each (λ (u : User) l. add u.id l) (users_of_node n.node_id st) owners in
      each (λ (g : Group) l. each (λ (u : User) k. add u.id k) (users_of_group g.id st) l)
        (keep (λ g. is_shared db g.id n.node_id st) st.groups) direct_users

  unfoldable pub list_users_affected_by_user_deletion : ℕ → Store db → List ℕ
  unfolding affected_by_node
  list_users_affected_by_user_deletion user_id st =
      if user_id == 0
      then []
      else (let owned = keep (λ n. n.owner_user_id == user_id) st.nodes in
          let created = keep (λ g. g.created_by_user_id == user_id) st.groups in
          let seen = each (affected_by_node st) owned [] in
          let rosters =
            each (λ (g : Group) l. each (λ (u : User) k. add u.id k) (users_of_group g.id st) l)
              created seen in
          delete user_id (each add (list_node_owners_for_member user_id st) rosters))
