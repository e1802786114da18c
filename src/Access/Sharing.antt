-- ===== src/Access/Sharing.antt =====
-- src/services/data_service.js, `collapseDirectAdminsIntoGroup`, and src/modules/node/proxy.js,
-- 'group:node:add': what sharing a node with a group does to who reaches it.
use virgo_fleet.Base.{
  ℕ, ◌≡◌, refl, ap, sym, Bool, true, not, ◌&&◌, ◌||◌, List, [], ◌∷◌, arith, ◌==◌, ==_iff, both-some,
  Option_keeps, ==_refl, if_keeps, is_some, both, first, any, keep, each, inl, inr, Bool-cases,
}
use virgo_fleet.Access.Store.{
  User, Group, Node, Database, Store, find_group, find_node, is_member, is_shared,
}
use virgo_fleet.Access.Queries.{
  users_of_node, is_node_owner, is_group_manager, can_user_access_node,
}
use virgo_fleet.Access.Changes.{
  returns, is_redundant, remove_grant, collapse_direct_admins_into_group, grant_group_node_access,
}
use virgo_fleet.Access.Handlers.{Caller, Outcome}
use virgo_fleet.Access.NodeEvents.{group_node_add}
use virgo_fleet.Access.Outcomes.{attempt_keeps, grant_group_node_access-returns}
use virgo_fleet.Access.Reach.{covered, reaches, can_user_access_node_lem}

abbrev pub has_id : ℕ → User → Bool
has_id id u = u.id == id

module _ (db : Database) where
  -- A group that exists covers its members on the nodes it shares.
  pub covered_by :
      (g u n : ℕ) (st : Store db)
      → is_some (find_group db g st) ≡ true
      → is_member db g u st ≡ true
      → is_shared db g n st ≡ true
      → covered db u n st ≡ true
  covered_by g u n st found m s = go st.groups found
    where
      joined : (k : ℕ) → k ≡ g → (is_member db k u st && is_shared db k n st) ≡ true
      joined k e = rw e (ground arith)

      go :
          (gs : List Group)
          → is_some (first (λ h. h.id == g) gs) ≡ true
          → any (λ h. is_member db h.id u st && is_shared db h.id n st) gs ≡ true
      go [] f = ground arith
      go (h ∷ gs) f = elim (Bool-cases (h.id == g)) [
        | inl e ↦ ground (arith, go gs, joined h.id (ground (arith, ==_iff h.id g)))
        | inr e ↦ ground (arith, go gs)
      ]

  only_grants :
      (n : ℕ) (us : List User) (st : Store db)
      → each (remove_grant db n) us st ≡ record st {
        grants = each (λ (u : User) t. db.node_accesses.remove n u.id t) us st.grants;
      }
  unfolding each remove_grant
  only_grants n [] st = refl
  only_grants n (u ∷ us) st = only_grants n us (remove_grant db n u st)

  granted_after :
      (n : ℕ) (us : List User) (k v : ℕ) (t : db.node_accesses.Table)
      → is_some
          (db.node_accesses.role k v (each (λ (u : User) s. db.node_accesses.remove n u.id s) us t))
        ≡ (is_some (db.node_accesses.role k v t) && not ((n == k) && any (has_id v) us))
  unfolding each
  granted_after n [] k v t = ground arith
  granted_after n (u ∷ us) k v t =
      rw
        (
          granted_after n us k v (db.node_accesses.remove n u.id t),
          db.node_accesses.role-remove k v n u.id t,
        )
        (ground arith)

  redundant_member :
      (x : Node) (g v : ℕ) (st : Store db) (us : List User)
      → any (has_id v) (keep (is_redundant db x g st) us) ≡ true
      → is_member db g v st ≡ true
  redundant_member x g v st [] h = ground arith
  redundant_member x g v st (u ∷ us) h = ground (arith, redundant_member x g v st us, same u.id)
    where
      same : (k : ℕ) → (k == v) ≡ true → is_member db g k st ≡ true → is_member db g v st ≡ true
      same k e m = rw (sym ((==_iff k v).0 e)) m

  -- The redundant grants go, and nothing else does.
  collapsed :
      (x : Node) (g n u k : ℕ) (st : Store db)
      → is_some (find_group db g st) ≡ true
      → is_shared db g n st ≡ true
      → reaches db u k st ≡ true
      → reaches db u k
          (each (remove_grant db n) (keep (is_redundant db x g st) (users_of_node db n st)) st)
        ≡ true
  collapsed x g n u k st found s h =
      rw
        (
          only_grants n (keep (is_redundant db x g st) (users_of_node db n st)) st,
          granted_after n (keep (is_redundant db x g st) (users_of_node db n st)) k u st.grants,
        )
        (ground (arith, redundant_member x g u st (users_of_node db n st), at_node k))
    where
      at_node : (k : ℕ) → (n == k) ≡ true → is_member db g u st ≡ true → covered db u k st ≡ true
      at_node k e m = rw (sym ((==_iff n k).0 e)) (covered_by g u n st found m s)

  collapse_keeps :
      (g n u k : ℕ) (st : Store db)
      → is_shared db g n st ≡ true
      → reaches db u k st ≡ true
      → reaches db u k (collapse_direct_admins_into_group db n g st).0 ≡ true
  unfolding collapse_direct_admins_into_group
  collapse_keeps g n u k st s h =
      Option_keeps (λ (o : Store db × List ℕ). reaches db u k o.0 ≡ true)
        (both (find_node db n st) (find_group db g st)) _ _ (λ e. h)
        λ (x, y) e.
          collapsed x g n u k st
            (ap is_some (both-some (find_node db n st) (find_group db g st) x y e).1) s h

  abbrev with_share : ℕ → ℕ → Store db → Store db
  with_share g n st = record st { shares = db.group_node_accesses.add g n tt st.shares }

  -- A new share takes no path away.
  covered-add :
      (g n u k : ℕ) (st : Store db)
      → covered db u k st ≡ true
      → covered db u k (with_share g n st) ≡ true
  covered-add g n u k st h = go st.groups h
    where
      go :
          (gs : List Group)
          → any (λ x. is_member db x.id u st && is_shared db x.id k st) gs ≡ true
          → any (λ x. is_member db x.id u st && is_shared db x.id k (with_share g n st)) gs ≡ true
      go [] f = f
      go (x ∷ gs) f =
          rw (db.group_node_accesses.role-add x.id k g n tt st.shares) (ground (arith, go gs))

  abbrev CanReach : ℕ → ℕ → Outcome db → Type 0
  CanReach u k o = can_user_access_node db u k o.0 ≡ true

  -- Sharing a node with a group takes no one's access away, although the direct grants of the
  -- group's members are removed: whatever the answer, a user who could reach a node still can.
  pub group_node_add-Keeps :
      (caller : Caller) (g n u k : ℕ) (st : Store db)
      → can_user_access_node db u k st ≡ true
      → can_user_access_node db u k (group_node_add db caller g n st).0 ≡ true
  unfolding group_node_add
  group_node_add-Keeps caller g n u k st h =
      if_keeps (CanReach u k) (not caller.is_authenticated) _ _ (λ _. h)
        λ _.
          if_keeps (CanReach u k)
            (not (is_node_owner db caller.user_id n st)
              || not (is_group_manager db caller.user_id g st))
            _ _ (λ _. h)
            λ _.
              attempt_keeps db (CanReach u k) (grant_group_node_access db g n st) st _ (λ _. h)
                λ st' e.
                  rw
                    (can_user_access_node_lem db u k
                      (collapse_direct_admins_into_group db n g st').0)
                    (collapse_keeps g n u k st' (shared st' e) (kept st' e))
    where
      shared :
          (st' : Store db)
          → grant_group_node_access db g n st ≡ returns st'
          → is_shared db g n st' ≡ true
      shared st' e =
          rw
            (
              sym (grant_group_node_access-returns db g n st st' e).1,
              db.group_node_accesses.role-add g n g n tt st.shares,
              ==_refl g,
              ==_refl n,
            )
            refl

      kept :
          (st' : Store db)
          → grant_group_node_access db g n st ≡ returns st'
          → reaches db u k st' ≡ true
      kept st' e =
          rw (sym (grant_group_node_access-returns db g n st st' e).1)
            (ground (arith, can_user_access_node_lem db u k st, covered-add g n u k st))
