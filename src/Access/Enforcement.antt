-- ===== src/Access/Enforcement.antt =====
-- src/utils/node_proxy.js, `revokeStaleNodeAccess` and `disconnectNodeUser`, as the handlers of
-- src/modules/node/proxy.js and src/modules/group/ call them: a lost access ends live sessions.
pub mod Groups
pub mod Nodes
pub mod Events
use virgo_fleet.Base.{
  ℕ, ◌≡◌, ◌≢◌, refl, sym, ap, ◌∙◌, Bool, true, false, not, ◌&&◌, ◌||◌, List, [], ◌∷◌, ◌++◌, arith,
  ◌==◌, ==_iff, ==_refl, if◌then◌else◌, if_keeps, is_some, any, each, each_inv, has, Option, none,
  some, Bool-cases, inl, inr,
}
use virgo_fleet.Access.Store.{User, Database, Store, find_user, find_node, is_member, is_shared}
use virgo_fleet.Access.Queries.{
  is_listed, list_accessible_nodes, can_user_access_node, is_node_owner, is_group_manager,
  get_user_by_email, list_group_member_user_ids, list_group_node_ids,
}
use virgo_fleet.Access.Changes.{
  returns, revoke_node_access, revoke_group_node_access, delete_group, remove_user_from_group,
}
use virgo_fleet.Access.Handlers.{
  Caller, Effect, node_user_dropped, Outcome, drop_if_unreachable, drop_unreachable_nodes,
  drop_node_user, revoke_stale_node_access,
}
use virgo_fleet.Access.NodeEvents.{node_revoke, node_delete, group_node_remove}
use virgo_fleet.Access.GroupEvents.{group_delete, group_user_remove}
use virgo_fleet.Access.Outcomes.{
  attempt_keeps, revoke_group_node_access-returns, revoke_node_access-returns,
  remove_user_from_group-returns, without_group, delete_group-returns,
}
use virgo_fleet.Access.Reach.{reaches, can_user_access_node_lem}
use virgo_fleet.Access.Losses.{
  without_grant, without_share, without_member, lost-grant, lost-share, lost-member, lost-group,
  roster_has, nodes_have,
}

-- The effect is a call of `disconnectNodeUser` for the user and the node, which ends the user's live
-- sessions of the node. The end of the node's own socket is not: WebRTC sessions outlive it.
abbrev pub ends : ℕ → ℕ → Effect → Bool
ends user_id node_id (node_user_dropped n u) = (n == node_id) && (u == user_id)
ends user_id node_id _ = false

pub any-append {ℓ} :
    {A : Type ℓ} (p : A → Bool) (xs ys : List A) → any p (xs ++ ys) ≡ (any p xs || any p ys)
any-append p [] ys = refl
any-append p (x ∷ xs) ys = ground (arith, any-append p xs ys)

-- Some effect of the list does.
unfoldable pub ended : ℕ → ℕ → List Effect → Bool
ended user_id node_id out = any (ends user_id node_id) out

pub ended_before :
    (u k : ℕ) (xs ys : List Effect) → ended u k xs ≡ true → ended u k (xs ++ ys) ≡ true
unfolding ended
ended_before u k xs ys h = rw (any-append (ends u k) xs ys, h) refl

pub unlost {ℓ} : {X : Type ℓ} (b : Bool) → b ≡ true → b ≡ false → X
unlost b h l = ground arith

module _ (db : Database) where
  ends-drop :
      (u k v n : ℕ) (st : Store db) (out : List Effect)
      → v ≢ 0
      → any (ends u k) (drop_if_unreachable db v st n out)
        ≡ (any (ends u k) out || (not (can_user_access_node db v n st) && ((n == k) && (v == u))))
  unfolding drop_if_unreachable can_user_access_node
  ends-drop u k v n st out h = elim (Bool-cases (is_listed n (list_accessible_nodes db v st))) [
    | inl e ↦ rw e (ground arith)
    | inr e ↦
        let nz : (v == 0) ≡ false = ground (arith, ==_iff v 0) in
        rw (e, nz, any-append (ends u k) out (node_user_dropped n v ∷ [])) (ground arith)
  ]

  swept_nodes :
      (u k : ℕ) (ns : List ℕ) (st : Store db) (out : List Effect)
      → u ≢ 0
      → can_user_access_node db u k st ≡ false
      → (has ns k || any (ends u k) out) ≡ true
      → any (ends u k) (each (drop_if_unreachable db u st) ns out) ≡ true
  unfolding each
  swept_nodes u k [] st out z h e = ground arith
  swept_nodes u k (n ∷ ns) st out z h e =
      swept_nodes u k ns st (drop_if_unreachable db u st n out) z h
        (rw (ends-drop u k u n st out z) (ground (arith, unreachable n, ==_refl u)))
    where
      unreachable : (n : ℕ) → (n == k) ≡ true → can_user_access_node db u n st ≡ false
      unreachable n e = rw ((==_iff n k).0 e) h

  drop_keeps :
      (u k v n : ℕ) (st : Store db) (out : List Effect)
      → any (ends u k) out ≡ true
      → any (ends u k) (drop_if_unreachable db v st n out) ≡ true
  unfolding drop_if_unreachable
  drop_keeps u k v n st out h =
      if_keeps (λ l. any (ends u k) l ≡ true) (is_listed n (list_accessible_nodes db v st)) _ _
        (λ _. h) (λ _. rw (any-append (ends u k) out (drop_node_user n (some v))) (ground arith))

  sweep_keeps :
      (u k v : ℕ) (ns : List ℕ) (st : Store db) (out : List Effect)
      → any (ends u k) out ≡ true
      → any (ends u k) (drop_unreachable_nodes db ns st v out) ≡ true
  unfolding drop_unreachable_nodes
  sweep_keeps u k v ns st out h =
      each_inv (λ l. any (ends u k) l ≡ true) (drop_if_unreachable db v st)
        (λ n l. drop_keeps u k v n st l) ns out h

  swept_users :
      (u k : ℕ) (us ns : List ℕ) (st : Store db) (out : List Effect)
      → u ≢ 0
      → can_user_access_node db u k st ≡ false
      → has ns k ≡ true
      → (has us u || any (ends u k) out) ≡ true
      → any (ends u k) (each (drop_unreachable_nodes db ns st) us out) ≡ true
  unfolding each drop_unreachable_nodes
  swept_users u k [] ns st out z h m e = ground arith
  swept_users u k (v ∷ us) ns st out z h m e =
      swept_users u k us ns st (drop_unreachable_nodes db ns st v out) z h m
        (elim (Bool-cases (has us u)) [ inl f ↦ rw f refl | inr f ↦ rw f (first_or_before f) ])
    where
      this : (v : ℕ) → v ≡ u → any (ends u k) (drop_unreachable_nodes db ns st v out) ≡ true
      this v q = rw (q, drop_unreachable_nodes) (swept_nodes u k ns st out z h (ground arith))

      first_or_before :
          has us u ≡ false → any (ends u k) (drop_unreachable_nodes db ns st v out) ≡ true
      first_or_before f = elim (Bool-cases (v == u)) [
        | inl q ↦ this v ((==_iff v u).0 q)
        | inr q ↦ sweep_keeps u k v ns st out (ground arith)
      ]

  -- The sweep ends the sessions of every listed user on every listed node that they cannot reach.
  pub revoke_stale_node_access_lem :
      (u k : ℕ) (us ns : List ℕ) (st : Store db)
      → u ≢ 0
      → has us u ≡ true
      → has ns k ≡ true
      → can_user_access_node db u k st ≡ false
      → ended u k (revoke_stale_node_access db us ns st) ≡ true
  unfolding ended revoke_stale_node_access
  revoke_stale_node_access_lem u k us ns st z a b h = swept_users u k us ns st [] z h b (rw a refl)

  -- A lost access ends the user's live sessions of the node.
  abbrev pub IsEnforced : ℕ → ℕ → Store db → Outcome db → Type 0
  IsEnforced u k st o =
      can_user_access_node db u k st ≡ true
      → can_user_access_node db u k o.0 ≡ false
      → ended u k o.1 ≡ true

  pub gained {ℓ} :
      {X : Type ℓ} (u k : ℕ) (st st' : Store db)
      → (reaches db u k st ≡ true → reaches db u k st' ≡ true)
      → can_user_access_node db u k st ≡ true
      → can_user_access_node db u k st' ≡ false
      → X
  gained u k st st' f h l =
      ground (arith, f, can_user_access_node_lem db u k st, can_user_access_node_lem db u k st')

  pub lost_reach :
      (u k : ℕ) (st st' : Store db)
      → can_user_access_node db u k st ≡ true
      → can_user_access_node db u k st' ≡ false
      → (reaches db u k st ≡ true) × (reaches db u k st' ≡ false)
  lost_reach u k st st' h l = (
    rw (sym (can_user_access_node_lem db u k st)) h,
    rw (sym (can_user_access_node_lem db u k st')) l,
  )

  pub same_reach :
      (u k : ℕ) (a b : Store db) → a ≡ b → reaches db u k b ≡ false → reaches db u k a ≡ false
  same_reach u k a b e h = ap (reaches db u k) e ∙ h

  pub dropped :
      (u k n v : ℕ) (out : List Effect)
      → u ≢ 0
      → ((n == k) && (v == u)) ≡ true
      → ended u k (drop_node_user n (some v) ++ out) ≡ true
  unfolding ended
  dropped u k n v out z e =
      let nz : (v == 0) ≡ false = ground (arith, ==_iff v 0, ==_iff v u) in rw nz (ground arith)
