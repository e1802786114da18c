-- ===== src/Access/NodeEvents.antt =====
-- src/modules/node/proxy.js, lines 237 to 434: the handlers that change who reaches a node.
use virgo_fleet.Base.{
  ℕ, Bool, not, ◌&&◌, ◌||◌, List, [], ◌∷◌, ◌++◌, Option, none, some, ◌==◌, if◌then◌else◌, each, add,
  first,
}
use virgo_fleet.Access.Store.{User, admin, Database, Store}
use virgo_fleet.Access.Queries.{
  direct, through_group, AccessibleNode, list_accessible_nodes, can_user_access_node, is_node_owner,
  is_group_manager, get_user_by_email, list_group_member_user_ids, list_node_member_user_ids,
}
use virgo_fleet.Access.Changes.{
  throws, returns, grant_node_access, revoke_node_access, grant_group_node_access,
  revoke_group_node_access, collapse_direct_admins_into_group, delete_node,
}
use virgo_fleet.Access.Handlers.{
  failed, Caller, Refusal, authentication_required, node_and_email_required, only_owner_invites,
  no_account, owner_has_access, has_access_by_group, has_access, not_owner_nor_self, node_required,
  access_denied, on_fleet_zone, not_owner_and_manager, not_owner_nor_manager, succeeded, unanswered,
  nodes_updated, groups_updated, unregister_requested, domains_released, peering_forgotten,
  node_disconnected, Outcome, drop_node_user, refuse, attempt, revoke_stale_node_access,
}

abbrev pub user_id_of : Option User → Option ℕ
user_id_of none = none
user_id_of (some u) = some u.id

abbrev pub already_refusal : AccessibleNode → Refusal
already_refusal a = elim a.access [ direct ↦ has_access | through_group ↦ has_access_by_group ]

-- `[...new Set([...a, ...b])]`
abbrev pub united : List ℕ → List ℕ → List ℕ
united a b = each add b (each add a [])

module _ (db : Database) where
  -- The part of `node:invite` after the account is found.
  unfoldable pub invite : (node_id email : ℕ) → User → Store db → Outcome db
  invite node_id email invitee st =
      if is_node_owner db invitee.id node_id st
      then refuse db owner_has_access st
      else elim (first (λ a. a.node_id == node_id) (list_accessible_nodes db invitee.id st)) [
        | some a ↦ refuse db (already_refusal a) st
        | none ↦
            attempt db (grant_node_access db email node_id admin st) st
              λ st'. (st', nodes_updated (list_node_member_user_ids db node_id st') ∷ [], succeeded)
      ]

  -- 'node:invite'
  unfoldable pub node_invite : Caller → (node_id email : ℕ) → Store db → Outcome db
  node_invite caller node_id email st =
      if not caller.is_authenticated
      then refuse db authentication_required st
      else if (node_id == 0) || (email == 0)
      then refuse db node_and_email_required st
      else if not (is_node_owner db caller.user_id node_id st)
      then refuse db only_owner_invites st
      else elim (get_user_by_email db email st) [
        | none ↦ refuse db no_account st
        | some invitee ↦ invite node_id email invitee st
      ]

  -- 'node:revoke'
  unfoldable pub node_revoke : Caller → (node_id email : ℕ) → Store db → Outcome db
  node_revoke caller node_id email st =
      if not caller.is_authenticated
      then refuse db authentication_required st
      else if (node_id == 0) || (email == 0)
      then refuse db node_and_email_required st
      else if not (is_node_owner db caller.user_id node_id st) && not (caller.email == email)
      then refuse db not_owner_nor_self st
      else attempt db (revoke_node_access db email node_id st) st λ st'. (
        st',
        drop_node_user node_id (user_id_of (get_user_by_email db email st))
            ++ nodes_updated (list_node_member_user_ids db node_id st) ∷ [],
        succeeded,
      )

  -- `teardownNode` of src/modules/node/index.js. Whether the node answers to the request to
  -- unregister does not change what follows.
  unfoldable pub teardown_node : ℕ → Store db → Outcome db
  teardown_node node_id st = elim (delete_node db node_id st) [
    | throws e ↦ (st, unregister_requested node_id ∷ domains_released node_id ∷ [], failed e)
    | returns st' ↦ (
      st',
      unregister_requested node_id
          ∷ domains_released node_id
          ∷ peering_forgotten node_id
          ∷ node_disconnected node_id
          ∷ nodes_updated (list_node_member_user_ids db node_id st)
          ∷ [],
      succeeded,
    )
  ]

  -- 'node:delete'. `on_zone` is `isNodeOnFleetZone(nodeId)`.
  unfoldable pub node_delete : Caller → (node_id : ℕ) → (on_zone : Bool) → Store db → Outcome db
  node_delete caller node_id on_zone st =
      if not caller.is_authenticated
      then refuse db authentication_required st
      else if node_id == 0
      then refuse db node_required st
      else if not (is_node_owner db caller.user_id node_id st)
      then (if not (can_user_access_node db caller.user_id node_id st)
          then refuse db access_denied st
          else attempt db (revoke_node_access db caller.email node_id st) st λ st'. (
            st',
            drop_node_user node_id (some caller.user_id)
                ++ nodes_updated (list_node_member_user_ids db node_id st) ∷ [],
            succeeded,
          ))
      else if on_zone
      then refuse db on_fleet_zone st
      else teardown_node node_id st

  -- 'group:node:add'
  unfoldable pub group_node_add : Caller → (group_id node_id : ℕ) → Store db → Outcome db
  group_node_add caller group_id node_id st =
      if not caller.is_authenticated
      then (st, [], unanswered)
      else if not (is_node_owner db caller.user_id node_id st)
          || not (is_group_manager db caller.user_id group_id st)
      then refuse db not_owner_and_manager st
      else attempt db (grant_group_node_access db group_id node_id st) st λ shared.
        let (st', collapsed) = collapse_direct_admins_into_group db node_id group_id shared in
        (
          st',
          groups_updated
              ∷ nodes_updated (
                  united (list_node_member_user_ids db node_id st')
                    (list_group_member_user_ids db group_id st'))
              ∷ [],
          succeeded,
        )

  -- 'group:node:remove'
  unfoldable pub group_node_remove : Caller → (group_id node_id : ℕ) → Store db → Outcome db
  group_node_remove caller group_id node_id st =
      if not caller.is_authenticated
      then (st, [], unanswered)
      else if not (is_node_owner db caller.user_id node_id st)
          && not (is_group_manager db caller.user_id group_id st)
      then refuse db not_owner_nor_manager st
      else let roster = list_group_member_user_ids db group_id st in
        attempt db (revoke_group_node_access db group_id node_id st) st λ st'. (
          st',
          revoke_stale_node_access db roster (node_id ∷ []) st'
              ++ groups_updated
                ∷ nodes_updated (united (list_node_member_user_ids db node_id st') roster)
                ∷ [],
          succeeded,
        )
