-- ===== src/Access/Changes.antt =====
-- src/services/data_service.js: the operations that change the access tables. What the source
-- throws is a value.
use virgo_fleet.Base.{
  ℕ, Bool, true, false, not, ◌&&◌, List, [], ◌∷◌, ◌++◌, Option, none, some, ◌==◌, if◌then◌else◌,
  is_some, both, any, keep, map, each,
}
use virgo_fleet.Access.Store.{
  User, Group, Node, GroupRole, manager, NodeRole, owner, Database, Store, find_user, find_group,
  find_node, is_member,
}
use virgo_fleet.Access.Queries.{get_user_by_email, users_of_node}

pub data Fault : Type 0 where
  user_or_node_not_found owner_cannot_be_removed group_or_node_not_found : Fault
  group_or_user_not_found group_not_found node_not_found group_name_required : Fault
  group_name_taken node_id_required invalid_node_token registered_to_another : Fault
  already_registered : Fault

pub data Result {ℓ} (A : Type ℓ) : Type ℓ where
  throws : Fault → Result A
  returns : A → Result A

module _ (db : Database) where
  unfoldable pub grant_node_access : ℕ → ℕ → NodeRole → Store db → Result (Store db)
  grant_node_access email node_id role st =
      elim (both (get_user_by_email db email st) (find_node db node_id st)) [
        | some (u, n) ↦
            returns (record st { grants = db.node_accesses.add node_id u.id role st.grants })
        | none ↦ throws user_or_node_not_found
      ]

  unfoldable pub revoke_node_access : ℕ → ℕ → Store db → Result (Store db)
  revoke_node_access email node_id st =
      elim (both (get_user_by_email db email st) (find_node db node_id st)) [
        | some (u, n) ↦
            if n.owner_user_id == u.id
            then throws owner_cannot_be_removed
            else returns (record st { grants = db.node_accesses.remove node_id u.id st.grants })
        | none ↦ throws user_or_node_not_found
      ]

  unfoldable pub grant_group_node_access : ℕ → ℕ → Store db → Result (Store db)
  grant_group_node_access group_id node_id st =
      elim (both (find_group db group_id st) (find_node db node_id st)) [
        | some (g, n) ↦
            returns
              (record st { shares = db.group_node_accesses.add group_id node_id tt st.shares })
        | none ↦ throws group_or_node_not_found
      ]

  unfoldable pub revoke_group_node_access : ℕ → ℕ → Store db → Result (Store db)
  revoke_group_node_access group_id node_id st =
      elim (both (find_group db group_id st) (find_node db node_id st)) [
        | some (g, n) ↦
            returns
              (record st { shares = db.group_node_accesses.remove group_id node_id st.shares })
        | none ↦ throws group_or_node_not_found
      ]

  abbrev pub is_owner_role : Option NodeRole → Bool
  is_owner_role (some owner) = true
  is_owner_role _ = false

  -- The filter of `redundant`: not the owner, and a member of the group.
  abbrev pub is_redundant : Node → ℕ → Store db → User → Bool
  is_redundant n group_id st u =
      not (u.id == n.owner_user_id)
      && (not (is_owner_role (db.node_accesses.role n.node_id u.id st.grants))
          && is_member db group_id u.id st)

  unfoldable pub remove_grant : ℕ → User → Store db → Store db
  remove_grant node_id u st = record st { grants = db.node_accesses.remove node_id u.id st.grants }

  -- The store after it, and the ids of the users whose grant was collapsed.
  unfoldable pub collapse_direct_admins_into_group : ℕ → ℕ → Store db → Store db × List ℕ
  collapse_direct_admins_into_group node_id group_id st =
      elim (both (find_node db node_id st) (find_group db group_id st)) [
        | some (n, g) ↦
            let redundant = keep (is_redundant n group_id st) (users_of_node db node_id st) in
            (each (remove_grant node_id) redundant st, map (λ u. u.id) redundant)
        | none ↦ (st, [])
      ]

  -- `node.setUsers([])`, `node.setGroups([])`, `node.destroy()`
  unfoldable pub delete_node : ℕ → Store db → Result (Store db)
  delete_node node_id st = elim (find_node db node_id st) [
    | none ↦ throws node_not_found
    | some n ↦ returns (record st {
      nodes = keep (λ m. not (m.node_id == node_id)) st.nodes;
      grants = db.node_accesses.drop_left node_id st.grants;
      shares = db.group_node_accesses.drop_right node_id st.shares;
    })
  ]

  -- Both join tables cascade from the group's row.
  unfoldable pub delete_group : ℕ → Store db → Result (Store db)
  delete_group group_id st = elim (find_group db group_id st) [
    | none ↦ throws group_not_found
    | some g ↦ returns (record st {
      groups = keep (λ h. not (h.id == group_id)) st.groups;
      members = db.user_groups.drop_left group_id st.members;
      shares = db.group_node_accesses.drop_left group_id st.shares;
    })
  ]

  unfoldable pub add_user_to_group : ℕ → ℕ → GroupRole → Store db → Result (Store db)
  add_user_to_group group_id email role st =
      elim (both (find_group db group_id st) (get_user_by_email db email st)) [
        | some (g, u) ↦
            returns (record st { members = db.user_groups.add group_id u.id role st.members })
        | none ↦ throws group_or_user_not_found
      ]

  unfoldable pub remove_user_from_group : ℕ → ℕ → Store db → Result (Store db)
  remove_user_from_group group_id email st =
      elim (both (find_group db group_id st) (get_user_by_email db email st)) [
        | some (g, u) ↦
            returns (record st { members = db.user_groups.remove group_id u.id st.members })
        | none ↦ throws group_or_user_not_found
      ]

  abbrev pub has_group_named : ℕ → ℕ → Store db → Bool
  has_group_named name creator st =
      any (λ g. (g.name == name) && (g.created_by_user_id == creator)) st.groups

  abbrev pub with_group : Group → Store db → Store db
  with_group g st = record st { groups = st.groups ++ g ∷ [] }

  abbrev pub new_group : (id name : ℕ) → Option ℕ → ℕ → Group
  new_group id name description creator = record {
    id = id;
    name = name;
    description = description;
    created_by_user_id = creator;
  }

  -- The id of the new row is the database's.
  unfoldable pub create_group :
      (id name : ℕ) → Option ℕ → (created_by_user_id : ℕ) → Store db → Result (Store db)
  create_group id name description creator st =
      if name == 0
      then throws group_name_required
      else (if not (creator == 0) && has_group_named name creator st
          then throws group_name_taken
          else (let created = with_group (new_group id name description creator) st in
              if is_some (find_user db creator st) && not (creator == 0)
              then returns (record created {
                members = db.user_groups.add id creator manager created.members;
              })
              else returns created))

  abbrev pub renamed : ℕ → Option (Option ℕ) → Group → Group
  renamed name none g = if name == 0 then g else record g { name = name }
  renamed name (some description) g =
      if name == 0
      then record g { description = description }
      else record g { name = name; description = description }

  -- A description that is left out stays; a new name that is empty is none.
  unfoldable pub update_group :
      ℕ → Option (Option ℕ) → (new_name : ℕ) → Store db → Result (Store db)
  update_group group_id description new_name st = elim (find_group db group_id st) [
    | none ↦ throws group_not_found
    | some g ↦ returns (record st {
      groups = map (λ h. if h.id == group_id then renamed new_name description h else h) st.groups;
    })
  ]
