-- ===== src/Access/Events.antt =====
-- The socket events of src/modules/node/proxy.js and src/modules/group/ that change who reaches a
-- node, each with the socket that sends it.
use virgo_fleet.Base.{ℕ, Bool, Option}
use virgo_fleet.Access.Store.{GroupRole, Database, Store}
use virgo_fleet.Access.Handlers.{Caller, Outcome}
use virgo_fleet.Access.NodeEvents.{
  node_invite, node_revoke, node_delete, group_node_add, group_node_remove,
}
use virgo_fleet.Access.GroupEvents.{
  group_create, group_update, group_delete, group_user_add, group_user_remove,
}

pub data Event : Type 0 where
  invited revoked : (node_id email : ℕ) → Event
  deleted : (node_id : ℕ) → (on_zone : Bool) → Event
  node_added node_removed : (group_id node_id : ℕ) → Event
  created : (id name : ℕ) → (description : Option ℕ) → Event
  updated : (group_id new_name : ℕ) → (description : Option (Option ℕ)) → Event
  group_deleted : (group_id : ℕ) → Event
  user_added : (group_id email : ℕ) → GroupRole → Event
  user_removed : (group_id email : ℕ) → Event

unfoldable pub handle : (db : Database) → Caller → Event → Store db → Outcome db
handle db caller (invited node_id email) st = node_invite db caller node_id email st
handle db caller (revoked node_id email) st = node_revoke db caller node_id email st
handle db caller (deleted node_id on_zone) st = node_delete db caller node_id on_zone st
handle db caller (node_added group_id node_id) st = group_node_add db caller group_id node_id st
handle db caller (node_removed group_id node_id) st =
    group_node_remove db caller group_id node_id st
handle db caller (created id name description) st = group_create db caller id name description st
handle db caller (updated group_id new_name description) st =
    group_update db caller group_id new_name description st
handle db caller (group_deleted group_id) st = group_delete db caller group_id st
handle db caller (user_added group_id email role) st =
    group_user_add db caller group_id email role st
handle db caller (user_removed group_id email) st = group_user_remove db caller group_id email st
