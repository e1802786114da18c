-- ===== src/Access/GroupEvents.antt =====
-- src/modules/group/ (create.js, update.js, delete.js, members.js): the handlers that change groups.
use virgo_fleet.Base.{ℕ, not, List, [], ◌∷◌, ◌++◌, Option, none, some, ◌==◌, if◌then◌else◌, is_some}
use virgo_fleet.Access.Store.{User, GroupRole, Database, Store}
use virgo_fleet.Access.Queries.{
  is_group_manager, get_user_by_email, list_group_member_user_ids, list_group_node_ids,
}
use virgo_fleet.Access.Changes.{
  create_group, update_group, delete_group, add_user_to_group, remove_user_from_group,
}
use virgo_fleet.Access.Handlers.{
  Caller, Effect, email_required, no_account, not_manager, succeeded, unanswered, nodes_updated,
  groups_updated, Outcome, refuse, attempt, revoke_stale_node_access,
}

abbrev pub if_any : List ℕ → List Effect
if_any [] = []
if_any (u ∷ us) = nodes_updated (u ∷ us) ∷ []

module _ (db : Database) where
  -- 'group:create'
  unfoldable pub group_create : Caller → (id name : ℕ) → Option ℕ → Store db → Outcome db
  group_create caller id name description st =
      if not caller.is_authenticated
      then (st, [], unanswered)
      else attempt db (create_group db id name description caller.user_id st) st
          λ st'. (st', groups_updated ∷ [], succeeded)

  -- 'group:update'
  unfoldable pub group_update :
      Caller → (group_id new_name : ℕ) → Option (Option ℕ) → Store db → Outcome db
  group_update caller group_id new_name description st =
      if not caller.is_authenticated
      then (st, [], unanswered)
      else if not (is_group_manager db caller.user_id group_id st)
      then refuse db not_manager st
      else attempt db (update_group db group_id description new_name st) st
          λ st'. (st', groups_updated ∷ [], succeeded)

  -- 'group:delete'
  unfoldable pub group_delete : Caller → (group_id : ℕ) → Store db → Outcome db
  group_delete caller group_id st =
      if not caller.is_authenticated
      then (st, [], unanswered)
      else if not (is_group_manager db caller.user_id group_id st)
      then refuse db not_manager st
      else let roster = list_group_member_user_ids db group_id st in
        let node_ids = list_group_node_ids db group_id st in
        attempt db (delete_group db group_id st) st λ st'. (
          st',
          revoke_stale_node_access db roster node_ids st' ++ if_any roster ++ groups_updated ∷ [],
          succeeded,
        )

  -- 'group:user:add'
  unfoldable pub group_user_add : Caller → (group_id email : ℕ) → GroupRole → Store db → Outcome db
  group_user_add caller group_id email role st =
      if not caller.is_authenticated
      then (st, [], unanswered)
      else if not (is_group_manager db caller.user_id group_id st)
      then refuse db not_manager st
      else if email == 0
      then refuse db email_required st
      else if not (is_some (get_user_by_email db email st))
      then refuse db no_account st
      else attempt db (add_user_to_group db group_id email role st) st
          λ st'. (st', groups_updated ∷ [], succeeded)

  unfoldable pub stale_for : Option User → List ℕ → Store db → List Effect
  stale_for none node_ids st = []
  stale_for (some u) node_ids st =
      revoke_stale_node_access db (u.id ∷ []) node_ids st ++ nodes_updated (u.id ∷ []) ∷ []

  -- 'group:user:remove'
  unfoldable pub group_user_remove : Caller → (group_id email : ℕ) → Store db → Outcome db
  group_user_remove caller group_id email st =
      if not caller.is_authenticated
      then (st, [], unanswered)
      else if not (is_group_manager db caller.user_id group_id st)
      then refuse db not_manager st
      else if email == 0
      then refuse db email_required st
      else let removed = get_user_by_email db email st in
        let node_ids = list_group_node_ids db group_id st in
        attempt db (remove_user_from_group db group_id email st) st
          λ st'. (st', stale_for removed node_ids st' ++ groups_updated ∷ [], succeeded)
