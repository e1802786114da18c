-- ===== src/Access/Enforcement/Groups.antt =====
-- src/modules/group/ and 'group:node:remove' of src/modules/node/proxy.js: the handlers that take a
-- share, a membership or a group away.
use virgo_fleet.Base.{ℕ, ◌≢◌, not, ◌&&◌, [], ◌∷◌, arith, ◌==◌, if_keeps}
use virgo_fleet.Access.Store.{Database, Store}
use virgo_fleet.Access.Queries.{
  can_user_access_node, is_node_owner, is_group_manager, list_group_member_user_ids,
  list_group_node_ids,
}
use virgo_fleet.Access.Changes.{revoke_group_node_access, delete_group, remove_user_from_group}
use virgo_fleet.Access.Handlers.{Caller}
use virgo_fleet.Access.NodeEvents.{group_node_remove}
use virgo_fleet.Access.GroupEvents.{stale_for, group_delete, group_user_remove}
use virgo_fleet.Access.Outcomes.{
  attempt_keeps, revoke_group_node_access-returns, remove_user_from_group-returns,
  delete_group-returns,
}
use virgo_fleet.Access.Losses.{lost-share, lost-member, lost-group, roster_has, nodes_have}
use virgo_fleet.Access.Enforcement.{
  ended_before, unlost, IsEnforced, lost_reach, same_reach, revoke_stale_node_access_lem,
}

module _ (db : Database) (u k : ℕ) (z : u ≢ 0) where
  pub group_node_remove-IsEnforced :
      (caller : Caller) (g n : ℕ) (st : Store db)
      → IsEnforced db u k st (group_node_remove db caller g n st)
  unfolding group_node_remove
  group_node_remove-IsEnforced caller g n st =
      if_keeps (IsEnforced db u k st) (not caller.is_authenticated) _ _
        (λ _. unlost (can_user_access_node db u k st))
        λ _.
          if_keeps (IsEnforced db u k st)
            (not (is_node_owner db caller.user_id n st)
              && not (is_group_manager db caller.user_id g st))
            _ _ (λ _. unlost (can_user_access_node db u k st))
            λ _.
              attempt_keeps db (IsEnforced db u k st) (revoke_group_node_access db g n st) st _
                (λ _. unlost (can_user_access_node db u k st))
                λ st' e h l.
                  let (found, done) = revoke_group_node_access-returns db g n st st' e in
                  let (before, after) = lost_reach db u k st st' h l in
                  let who = lost-share db g n u k st before (same_reach db u k _ st' done after) in
                  ended_before u k _ _ (
                    revoke_stale_node_access_lem db u k (list_group_member_user_ids db g st)
                      (n ∷ []) st' z (roster_has db g u st found (ground arith) (ground arith))
                      (ground arith) l)

  pub group_delete-IsEnforced :
      (caller : Caller) (g : ℕ) (st : Store db) → IsEnforced db u k st (group_delete db caller g st)
  unfolding group_delete
  group_delete-IsEnforced caller g st =
      if_keeps (IsEnforced db u k st) (not caller.is_authenticated) _ _
        (λ _. unlost (can_user_access_node db u k st))
        λ _.
          if_keeps (IsEnforced db u k st) (not (is_group_manager db caller.user_id g st)) _ _
            (λ _. unlost (can_user_access_node db u k st))
            λ _.
              attempt_keeps db (IsEnforced db u k st) (delete_group db g st) st _
                (λ _. unlost (can_user_access_node db u k st))
                λ st' e h l.
                  let (found, done) = delete_group-returns db g st st' e in
                  let (before, after) = lost_reach db u k st st' h l in
                  let who = lost-group db g u k st before (same_reach db u k _ st' done after) in
                  ended_before u k _ _ (
                    ended_before u k _ _ (
                      revoke_stale_node_access_lem db u k (list_group_member_user_ids db g st)
                        (list_group_node_ids db g st) st' z
                        (roster_has db g u st found (ground arith) (ground arith))
                        (nodes_have db g k st found (ground arith) (ground arith)) l))

  pub group_user_remove-IsEnforced :
      (caller : Caller) (g email : ℕ) (st : Store db)
      → IsEnforced db u k st (group_user_remove db caller g email st)
  unfolding group_user_remove stale_for
  group_user_remove-IsEnforced caller g email st =
      if_keeps (IsEnforced db u k st) (not caller.is_authenticated) _ _
        (λ _. unlost (can_user_access_node db u k st))
        λ _.
          if_keeps (IsEnforced db u k st) (not (is_group_manager db caller.user_id g st)) _ _
            (λ _. unlost (can_user_access_node db u k st))
            λ _.
              if_keeps (IsEnforced db u k st) (email == 0) _ _
                (λ _. unlost (can_user_access_node db u k st))
                λ _.
                  attempt_keeps db (IsEnforced db u k st) (remove_user_from_group db g email st) st
                    _ (λ _. unlost (can_user_access_node db u k st))
                    λ st' e h l.
                      let (x, found, account, done) =
                        remove_user_from_group-returns db g email st st' e in
                      let (before, after) = lost_reach db u k st st' h l in
                      let who =
                        lost-member db g x.id u k st before (same_reach db u k _ st' done after) in
                      rw (account, stale_for)
                        (ended_before u k _ _ (
                          ended_before u k _ _ (
                            revoke_stale_node_access_lem db u k (x.id ∷ [])
                              (list_group_node_ids db g st) st' z (ground arith)
                              (nodes_have db g k st found (ground arith) (ground arith)) l)))
