-- ===== src/Access/Enforcement/Events.antt =====
-- Every event of the access handlers, at once.
use virgo_fleet.Base.{
  ℕ, ◌≡◌, ◌≢◌, sym, ap, ◌∙◌, Bool, true, false, not, ◌&&◌, ◌==◌, if_keeps, is_some, Option,
}
use virgo_fleet.Access.Store.{GroupRole, manager, Database, Store, find_user}
use virgo_fleet.Access.Queries.{
  can_user_access_node, is_node_owner, is_group_manager, get_user_by_email,
}
use virgo_fleet.Access.Changes.{
  Result, returns, create_group, update_group, add_user_to_group, has_group_named, new_group,
  with_group,
}
use virgo_fleet.Access.Handlers.{Caller}
use virgo_fleet.Access.GroupEvents.{group_create, group_update, group_user_add}
use virgo_fleet.Access.Events.{
  Event, handle, invited, revoked, deleted, node_added, node_removed, created, updated,
  group_deleted, user_added, user_removed,
}
use virgo_fleet.Access.Outcomes.{
  attempt_keeps, returns_inj, throws_returns, add_user_to_group-returns, update_group-returns,
}
use virgo_fleet.Access.Gains.{reaches-member, reaches-group, reaches-update}
use virgo_fleet.Access.Reach.{reaches}
use virgo_fleet.Access.Sharing.{group_node_add-Keeps}
use virgo_fleet.Access.Enforcement.{ended, unlost, IsEnforced, gained}
use virgo_fleet.Access.Enforcement.Groups.{
  group_node_remove-IsEnforced, group_delete-IsEnforced, group_user_remove-IsEnforced,
}
use virgo_fleet.Access.Enforcement.Nodes.{
  IsGenuine, node_invite-IsEnforced, node_revoke-IsEnforced, node_delete-IsEnforced,
}

module _ (db : Database) (u k : ℕ) where
  create_group-gains :
      (id name : ℕ) (d : Option ℕ) (creator : ℕ) (st st' : Store db)
      → create_group db id name d creator st ≡ returns st'
      → reaches db u k st ≡ true
      → reaches db u k st' ≡ true
  unfolding create_group
  create_group-gains id name d creator st st' =
      if_keeps Gains (name == 0) _ _ (λ _ e. throws_returns _ _ e)
        λ _.
          if_keeps Gains (not (creator == 0) && has_group_named db name creator st) _ _
            (λ _ e. throws_returns _ _ e)
            λ _.
              if_keeps Gains (is_some (find_user db creator st) && not (creator == 0)) _ _
                (λ _ e h.
                  sym (ap (reaches db u k) (returns_inj _ st' e))
                  ∙ reaches-member db u k id creator manager
                      (with_group db (new_group db id name d creator) st)
                      (reaches-group db u k (new_group db id name d creator) st h))
                (λ _ e h.
                  sym (ap (reaches db u k) (returns_inj _ st' e))
                  ∙ reaches-group db u k (new_group db id name d creator) st h)
    where
      Gains : Result (Store db) → Type 0
      Gains r = r ≡ returns st' → reaches db u k st ≡ true → reaches db u k st' ≡ true

  group_create-IsEnforced :
      (caller : Caller) (id name : ℕ) (d : Option ℕ) (st : Store db)
      → IsEnforced db u k st (group_create db caller id name d st)
  unfolding group_create
  group_create-IsEnforced caller id name d st =
      if_keeps (IsEnforced db u k st) (not caller.is_authenticated) _ _
        (λ _. unlost (can_user_access_node db u k st))
        λ _.
          attempt_keeps db (IsEnforced db u k st) (create_group db id name d caller.user_id st) st _
            (λ _. unlost (can_user_access_node db u k st))
            λ st' e. gained db u k st st' (create_group-gains id name d caller.user_id st st' e)

  group_update-IsEnforced :
      (caller : Caller) (g name : ℕ) (d : Option (Option ℕ)) (st : Store db)
      → IsEnforced db u k st (group_update db caller g name d st)
  unfolding group_update
  group_update-IsEnforced caller g name d st =
      if_keeps (IsEnforced db u k st) (not caller.is_authenticated) _ _
        (λ _. unlost (can_user_access_node db u k st))
        λ _.
          if_keeps (IsEnforced db u k st) (not (is_group_manager db caller.user_id g st)) _ _
            (λ _. unlost (can_user_access_node db u k st))
            λ _.
              attempt_keeps db (IsEnforced db u k st) (update_group db g d name st) st _
                (λ _. unlost (can_user_access_node db u k st))
                λ st' e. gained db u k st st' (λ h.
                  sym (ap (reaches db u k) (update_group-returns db g name d st st' e))
                  ∙ reaches-update db u k g name d st h)

  group_user_add-IsEnforced :
      (caller : Caller) (g email : ℕ) (role : GroupRole) (st : Store db)
      → IsEnforced db u k st (group_user_add db caller g email role st)
  unfolding group_user_add
  group_user_add-IsEnforced caller g email role st =
      if_keeps (IsEnforced db u k st) (not caller.is_authenticated) _ _
        (λ _. unlost (can_user_access_node db u k st))
        λ _.
          if_keeps (IsEnforced db u k st) (not (is_group_manager db caller.user_id g st)) _ _
            (λ _. unlost (can_user_access_node db u k st))
            λ _.
              if_keeps (IsEnforced db u k st) (email == 0) _ _
                (λ _. unlost (can_user_access_node db u k st))
                λ _.
                  if_keeps (IsEnforced db u k st) (not (is_some (get_user_by_email db email st))) _
                    _ (λ _. unlost (can_user_access_node db u k st))
                    λ _.
                      attempt_keeps db (IsEnforced db u k st) (add_user_to_group db g email role st)
                        st _ (λ _. unlost (can_user_access_node db u k st))
                        λ st' e.
                          let (v, account, done) =
                            add_user_to_group-returns db g email role st st' e in
                          gained db u k st st' (λ h.
                            sym (ap (reaches db u k) done) ∙ reaches-member db u k g v.id role st h)

-- The sender is the owner of the node and removes the node itself.
abbrev pub is_removal : (db : Database) → Caller → Event → ℕ → Store db → Bool
is_removal db caller (deleted n on_zone) node_id st =
    n == node_id && (is_node_owner db caller.user_id n st && not on_zone)
is_removal db caller _ node_id st = false

-- Whatever a handler answers, a user who could reach a node before the event and cannot after it
-- has had their live sessions of that node ended by a call of `disconnectNodeUser`, where the event is
-- not the removal of the node itself by its owner, and where the sender's email is that of the account
-- whose id it carries.
pub handle-IsEnforced :
    (db : Database) (u k : ℕ) (caller : Caller) (event : Event) (st : Store db)
    → u ≢ 0
    → IsGenuine db caller st
    → is_removal db caller event k st ≡ false
    → can_user_access_node db u k st ≡ true
    → can_user_access_node db u k (handle db caller event st).0 ≡ false
    → ended u k (handle db caller event st).1 ≡ true
unfolding handle
handle-IsEnforced db u k caller (invited n email) st z g r =
    node_invite-IsEnforced db u k z caller n email st
handle-IsEnforced db u k caller (revoked n email) st z g r =
    node_revoke-IsEnforced db u k z caller n email st
handle-IsEnforced db u k caller (deleted n on_zone) st z g r =
    node_delete-IsEnforced db u k z caller n on_zone st g r
handle-IsEnforced db u k caller (node_added j n) st z g r =
    λ h. unlost _ (group_node_add-Keeps db caller j n u k st h)
handle-IsEnforced db u k caller (node_removed j n) st z g r =
    group_node_remove-IsEnforced db u k z caller j n st
handle-IsEnforced db u k caller (created id name d) st z g r =
    group_create-IsEnforced db u k caller id name d st
handle-IsEnforced db u k caller (updated j name d) st z g r =
    group_update-IsEnforced db u k caller j name d st
handle-IsEnforced db u k caller (group_deleted j) st z g r =
    group_delete-IsEnforced db u k z caller j st
handle-IsEnforced db u k caller (user_added j email role) st z g r =
    group_user_add-IsEnforced db u k caller j email role st
handle-IsEnforced db u k caller (user_removed j email) st z g r =
    group_user_remove-IsEnforced db u k z caller j email st
