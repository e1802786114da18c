-- ===== src/Access/Handlers.antt =====
-- What the socket handlers of src/modules/node/proxy.js and src/modules/group/ share: the caller, the
-- answers, what they tell other parts, and the sweep of src/utils/node_proxy.js that ends the
-- sessions of those who lost access.
use virgo_fleet.Base.{ℕ, Bool, List, [], ◌∷◌, ◌++◌, ◌==◌, if◌then◌else◌, each, Option, none, some}
use virgo_fleet.Access.Store.{Database, Store}
use virgo_fleet.Access.Queries.{list_accessible_nodes, is_listed}
use virgo_fleet.Access.Changes.{Fault, Result, throws, returns}

-- The socket's own fields, set when it was authenticated.
pub record Caller : Type 0 where
  pub user_id : ℕ
  pub email : ℕ
  pub is_authenticated : Bool

pub data Refusal : Type 0 where
  authentication_required node_and_email_required only_owner_invites no_account : Refusal
  owner_has_access has_access_by_group has_access not_owner_nor_self node_required : Refusal
  access_denied on_fleet_zone not_owner_and_manager not_owner_nor_manager not_manager : Refusal
  email_required : Refusal

pub data Reply : Type 0 where
  succeeded : Reply
  refused : Refusal → Reply
  failed : Fault → Reply
  unanswered : Reply

-- What a handler makes other parts do. `node_user_dropped` is a call of `disconnectNodeUser`,
-- which closes that user's proxied sockets and WebRTC sessions of that node. `node_disconnected` is a
-- call of `disconnectNode`, which closes the node's own socket, if it has one.
pub data Effect : Type 0 where
  nodes_updated : (user_ids : List ℕ) → Effect
  groups_updated : Effect
  node_user_dropped : (node_id user_id : ℕ) → Effect
  unregister_requested domains_released peering_forgotten node_disconnected : ℕ → Effect

abbrev pub Outcome : Database → Type 0
Outcome db = Store db × List Effect × Reply

-- `disconnectNodeUser`, of no user when there is none.
abbrev pub drop_node_user : ℕ → Option ℕ → List Effect
drop_node_user node_id none = []
drop_node_user node_id (some user_id) =
    if user_id == 0 then [] else node_user_dropped node_id user_id ∷ []

module _ (db : Database) where
  -- `ack({ status: 'failed', … }); return;`
  abbrev pub refuse : Refusal → Store db → Outcome db
  refuse r st = (st, [], refused r)

  -- `try { … } catch (error) { ack({ status: 'failed', message: error.message }) }`
  unfoldable pub attempt : Result (Store db) → Store db → (Store db → Outcome db) → Outcome db
  attempt (throws e) st k = (st, [], failed e)
  attempt (returns st') st k = k st'

  unfoldable pub drop_if_unreachable : ℕ → Store db → ℕ → List Effect → List Effect
  drop_if_unreachable user_id st node_id out =
      if is_listed node_id (list_accessible_nodes db user_id st)
      then out
      else out ++ drop_node_user node_id (some user_id)

  unfoldable pub drop_unreachable_nodes : List ℕ → Store db → ℕ → List Effect → List Effect
  drop_unreachable_nodes node_ids st user_id out =
      each (drop_if_unreachable user_id st) node_ids out

  -- `revokeStaleNodeAccess`, on the store after the change.
  unfoldable pub revoke_stale_node_access : List ℕ → List ℕ → Store db → List Effect
  revoke_stale_node_access user_ids node_ids st =
      each (drop_unreachable_nodes node_ids st) user_ids []
