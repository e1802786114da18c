-- ===== src/Access/Enforcement/Nodes.antt =====
-- src/modules/node/proxy.js, 'node:invite', 'node:revoke', 'node:delete': the handlers that change
-- the grants of a node.
use virgo_fleet.Base.{
  ℕ, ◌≡◌, ◌≢◌, sym, ap, ◌∙◌, Bool, false, arith, not, ◌&&◌, ◌||◌, ◌==◌, if_keeps, Option_keeps,
  first, some,
}
use virgo_fleet.Access.Store.{User, admin, Database, Store}
use virgo_fleet.Access.Queries.{
  can_user_access_node, is_node_owner, get_user_by_email, list_accessible_nodes,
}
use virgo_fleet.Access.Changes.{grant_node_access, revoke_node_access, delete_node}
use virgo_fleet.Access.Handlers.{Caller}
use virgo_fleet.Access.NodeEvents.{invite, node_invite, node_revoke, teardown_node, node_delete}
use virgo_fleet.Access.Outcomes.{
  attempt_keeps, Result_keeps, revoke_node_access-returns, grant_node_access-returns,
  delete_node-returns,
}
use virgo_fleet.Access.Gains.{reaches-grant}
use virgo_fleet.Access.Reach.{reaches}
use virgo_fleet.Access.Losses.{lost-grant, lost-node}
use virgo_fleet.Access.Enforcement.{unlost, dropped, IsEnforced, gained, lost_reach, same_reach}

-- The caller's email is that of the account whose id it carries.
abbrev pub IsGenuine : (db : Database) → Caller → Store db → Type 0
IsGenuine db caller st =
    (x : User) → get_user_by_email db caller.email st ≡ some x → x.id ≡ caller.user_id

module _ (db : Database) (u k : ℕ) (z : u ≢ 0) where
  invite-IsEnforced :
      (n email : ℕ) (x : User) (st : Store db) → IsEnforced db u k st (invite db n email x st)
  unfolding invite
  invite-IsEnforced n email x st =
      if_keeps (IsEnforced db u k st) (is_node_owner db x.id n st) _ _
        (λ _. unlost (can_user_access_node db u k st))
        λ _.
          Option_keeps (IsEnforced db u k st)
            (first (λ a. a.node_id == n) (list_accessible_nodes db x.id st)) _ _
            (λ _.
              attempt_keeps db (IsEnforced db u k st) (grant_node_access db email n admin st) st _
                (λ _. unlost (can_user_access_node db u k st))
                λ st' e.
                  let (v, account, done) = grant_node_access-returns db email n admin st st' e in
                  gained db u k st st'
                    (λ h. sym (ap (reaches db u k) done) ∙ reaches-grant db u k n v.id admin st h))
            λ a _. unlost (can_user_access_node db u k st)

  pub node_invite-IsEnforced :
      (caller : Caller) (n email : ℕ) (st : Store db)
      → IsEnforced db u k st (node_invite db caller n email st)
  unfolding node_invite
  node_invite-IsEnforced caller n email st =
      if_keeps (IsEnforced db u k st) (not caller.is_authenticated) _ _
        (λ _. unlost (can_user_access_node db u k st))
        λ _.
          if_keeps (IsEnforced db u k st) ((n == 0) || (email == 0)) _ _
            (λ _. unlost (can_user_access_node db u k st))
            λ _.
              if_keeps (IsEnforced db u k st) (not (is_node_owner db caller.user_id n st)) _ _
                (λ _. unlost (can_user_access_node db u k st))
                λ _.
                  Option_keeps (IsEnforced db u k st) (get_user_by_email db email st) _ _
                    (λ _. unlost (can_user_access_node db u k st))
                    λ x _. invite-IsEnforced n email x st

  pub node_revoke-IsEnforced :
      (caller : Caller) (n email : ℕ) (st : Store db)
      → IsEnforced db u k st (node_revoke db caller n email st)
  unfolding node_revoke
  node_revoke-IsEnforced caller n email st =
      if_keeps (IsEnforced db u k st) (not caller.is_authenticated) _ _
        (λ _. unlost (can_user_access_node db u k st))
        λ _.
          if_keeps (IsEnforced db u k st) ((n == 0) || (email == 0)) _ _
            (λ _. unlost (can_user_access_node db u k st))
            λ _.
              if_keeps (IsEnforced db u k st)
                (not (is_node_owner db caller.user_id n st) && not (caller.email == email)) _ _
                (λ _. unlost (can_user_access_node db u k st))
                λ _.
                  attempt_keeps db (IsEnforced db u k st) (revoke_node_access db email n st) st _
                    (λ _. unlost (can_user_access_node db u k st))
                    λ st' e h l.
                      let (x, _, account, _, _, done) =
                        revoke_node_access-returns db email n st st' e in
                      let (before, after) = lost_reach db u k st st' h l in
                      rw account (
                        dropped db u k n x.id _ z
                          (lost-grant db n x.id u k st before (same_reach db u k _ st' done after)))

  -- The removal of another node takes nobody's access to this one.
  teardown_node-IsEnforced :
      (n : ℕ) (st : Store db) → (n == k) ≡ false → IsEnforced db u k st (teardown_node db n st)
  unfolding teardown_node
  teardown_node-IsEnforced n st other =
      Result_keeps (IsEnforced db u k st) (delete_node db n st) _ _
        (λ _. unlost (can_user_access_node db u k st))
        λ st' e h l.
          let (before, after) = lost_reach db u k st st' h l in
          let here =
            lost-node db n u k st before
              (same_reach db u k _ st' (delete_node-returns db n st st' e) after) in
          unlost (n == k) here other

  pub node_delete-IsEnforced :
      (caller : Caller) (n : ℕ) (on_zone : Bool) (st : Store db)
      → IsGenuine db caller st
      → (n == k && (is_node_owner db caller.user_id n st && not on_zone)) ≡ false
      → IsEnforced db u k st (node_delete db caller n on_zone st)
  unfolding node_delete
  node_delete-IsEnforced caller n on_zone st genuine stays =
      if_keeps (IsEnforced db u k st) (not caller.is_authenticated) _ _
        (λ _. unlost (can_user_access_node db u k st))
        λ _.
          if_keeps (IsEnforced db u k st) (n == 0) _ _
            (λ _. unlost (can_user_access_node db u k st))
            λ _.
              if_keeps (IsEnforced db u k st) (not (is_node_owner db caller.user_id n st)) _ _
                (λ _.
                  if_keeps (IsEnforced db u k st)
                    (not (can_user_access_node db caller.user_id n st)) _ _
                    (λ _. unlost (can_user_access_node db u k st))
                    λ _.
                      attempt_keeps db (IsEnforced db u k st)
                        (revoke_node_access db caller.email n st) st _
                        (λ _. unlost (can_user_access_node db u k st))
                        λ st' e h l.
                          let (x, _, account, _, _, done) =
                            revoke_node_access-returns db caller.email n st st' e in
                          let (before, after) = lost_reach db u k st st' h l in
                          dropped db u k n caller.user_id _ z (
                            rw (sym (genuine x account)) (
                              lost-grant db n x.id u k st before
                                (same_reach db u k _ st' done after))))
                λ own.
                  if_keeps (IsEnforced db u k st) on_zone _ _
                    (λ _. unlost (can_user_access_node db u k st))
                    λ off. teardown_node-IsEnforced n st (ground (arith, stays, own, off))
