-- ===== src/Access/Losses.antt =====
-- src/services/data_service.js: who can lose a node by each operation that takes rows away.
use virgo_fleet.Base.{
  ℕ, ◌≡◌, refl, sym, Bool, true, false, not, ◌&&◌, List, [], ◌∷◌, arith, ◌==◌, ==_iff, is_some,
  first, any, keep, map, has, Option-cases, Bool-cases, if_keeps, ap, inl, inr,
}
use virgo_fleet.Access.Store.{
  User, Group, Node, Database, Store, find_user, find_group, find_node, is_member, is_granted,
  is_shared,
}
use virgo_fleet.Access.Queries.{list_group_member_user_ids, list_group_node_ids}
use virgo_fleet.Access.Outcomes.{without_group, without_node}
use virgo_fleet.Access.Reach.{reaches}

user_ids :
    (p : ℕ → Bool) (u : ℕ) (us : List User)
    → is_some (first (λ x. x.id == u) us) ≡ true
    → p u ≡ true
    → has (map (λ x. x.id) (keep (λ x. p x.id) us)) u ≡ true
user_ids p u [] f h = ground arith
user_ids p u (x ∷ us) f h = ground (arith, user_ids p u us, ap p)

node_ids :
    (p : ℕ → Bool) (n : ℕ) (xs : List Node)
    → is_some (first (λ x. x.node_id == n) xs) ≡ true
    → p n ≡ true
    → has (map (λ x. x.node_id) (keep (λ x. p x.node_id) xs)) n ≡ true
node_ids p n [] f h = ground arith
node_ids p n (x ∷ xs) f h = ground (arith, node_ids p n xs, ap p)

unlost {ℓ} : {X : Type ℓ} (b : Bool) → b ≡ true → b ≡ false → X
unlost b h l = ground arith

module _ (db : Database) where
  abbrev pub without_grant : ℕ → ℕ → Store db → Store db
  without_grant n v st = record st { grants = db.node_accesses.remove n v st.grants }

  abbrev pub without_share : ℕ → ℕ → Store db → Store db
  without_share g n st = record st { shares = db.group_node_accesses.remove g n st.shares }

  abbrev pub without_member : ℕ → ℕ → Store db → Store db
  without_member g v st = record st { members = db.user_groups.remove g v st.members }

  -- A removed grant is lost by its user only.
  pub lost-grant :
      (n v u k : ℕ) (st : Store db)
      → reaches db u k st ≡ true
      → reaches db u k (without_grant n v st) ≡ false
      → ((n == k) && (v == u)) ≡ true
  lost-grant n v u k st h = rw (db.node_accesses.role-remove k u n v st.grants) (ground arith)

  -- A removed share is lost by the group's members only.
  pub lost-share :
      (g n u k : ℕ) (st : Store db)
      → reaches db u k st ≡ true
      → reaches db u k (without_share g n st) ≡ false
      → ((n == k) && is_member db g u st) ≡ true
  lost-share g n u k st h l = go st.groups (ground arith) (ground arith)
    where
      member_of : (j : ℕ) → (g == j) ≡ true → is_member db j u st ≡ is_member db g u st
      member_of j e = rw ((==_iff g j).0 e) refl

      go :
          (gs : List Group)
          → any (λ x. is_member db x.id u st && is_shared db x.id k st) gs ≡ true
          → any (λ x. is_member db x.id u st && is_shared db x.id k (without_share g n st)) gs
            ≡ false
          → ((n == k) && is_member db g u st) ≡ true
      go [] f = ground arith
      go (x ∷ gs) f =
          rw (db.group_node_accesses.role-remove x.id k g n st.shares)
            (ground (arith, go gs, member_of x.id))

  -- A removed membership is lost by its user only, on the nodes of the group.
  pub lost-member :
      (g v u k : ℕ) (st : Store db)
      → reaches db u k st ≡ true
      → reaches db u k (without_member g v st) ≡ false
      → ((v == u) && is_shared db g k st) ≡ true
  lost-member g v u k st h l = go st.groups (ground arith) (ground arith)
    where
      shared_by : (j : ℕ) → (g == j) ≡ true → is_shared db j k st ≡ is_shared db g k st
      shared_by j e = rw ((==_iff g j).0 e) refl

      go :
          (gs : List Group)
          → any (λ x. is_member db x.id u st && is_shared db x.id k st) gs ≡ true
          → any (λ x. is_member db x.id u (without_member g v st) && is_shared db x.id k st) gs
            ≡ false
          → ((v == u) && is_shared db g k st) ≡ true
      go [] f = ground arith
      go (x ∷ gs) f =
          rw (db.user_groups.role-remove x.id u g v st.members)
            (ground (arith, go gs, shared_by x.id))

  -- A removed group is lost by its members only, on its nodes.
  pub lost-group :
      (g u k : ℕ) (st : Store db)
      → reaches db u k st ≡ true
      → reaches db u k (without_group db g st) ≡ false
      → (is_member db g u st && is_shared db g k st) ≡ true
  lost-group g u k st h l = go st.groups (ground arith) (ground arith)
    where
      joins :
          (j : ℕ)
          → (j == g) ≡ true
          → (is_member db j u st && is_shared db j k st)
            ≡ (is_member db g u st && is_shared db g k st)
      joins j e = rw ((==_iff j g).0 e) refl

      go :
          (gs : List Group)
          → any (λ x. is_member db x.id u st && is_shared db x.id k st) gs ≡ true
          → any
              (λ x.
                is_member db x.id u (without_group db g st)
                && is_shared db x.id k (without_group db g st))
              (keep (λ x. not (x.id == g)) gs)
            ≡ false
          → (is_member db g u st && is_shared db g k st) ≡ true
      go [] f = ground arith
      go (x ∷ gs) f =
          if_keeps
            (λ l.
              any
                  (λ y.
                    is_member db y.id u (without_group db g st)
                    && is_shared db y.id k (without_group db g st))
                  l
                ≡ false
              → (is_member db g u st && is_shared db g k st) ≡ true)
            (not (x.id == g)) _ _
            (λ e.
              rw
                (
                  db.user_groups.role-drop_left x.id u g st.members,
                  db.group_node_accesses.role-drop_left x.id k g st.shares,
                )
                (ground (arith, go gs)))
            (λ e. ground (arith, go gs, joins x.id))

  -- A deleted node is the only one that is lost.
  pub lost-node :
      (n u k : ℕ) (st : Store db)
      → reaches db u k st ≡ true
      → reaches db u k (without_node db n st) ≡ false
      → (n == k) ≡ true
  lost-node n u k st h l = elim (Bool-cases (n == k)) [
    | inl e ↦ e
    | inr e ↦
        unlost (reaches db u k st) h
          (rw (sym (same_node e st.nodes), sym (same_grant e), sym (same_cover e st.groups)) l)
  ]
    where
      same_node :
          (n == k) ≡ false
          → (xs : List Node)
          → first (λ x. x.node_id == k) (keep (λ m. not (m.node_id == n)) xs)
            ≡ first (λ x. x.node_id == k) xs
      same_node e [] = refl
      same_node e (x ∷ xs) = ground (arith, same_node e xs)

      same_grant :
          (n == k) ≡ false → is_granted db k u (without_node db n st) ≡ is_granted db k u st
      same_grant e = rw (db.node_accesses.role-drop_left k u n st.grants, e) refl

      same_cover :
          (n == k) ≡ false
          → (gs : List Group)
          → any (λ x. is_member db x.id u st && is_shared db x.id k (without_node db n st)) gs
            ≡ any (λ x. is_member db x.id u st && is_shared db x.id k st) gs
      same_cover e [] = refl
      same_cover e (x ∷ gs) =
          rw (db.group_node_accesses.role-drop_right x.id k n st.shares, e, same_cover e gs) refl

  -- The users and the nodes of a group, as they are captured before a change.
  pub roster_has :
      (g u : ℕ) (st : Store db)
      → is_some (find_group db g st) ≡ true
      → is_some (find_user db u st) ≡ true
      → is_member db g u st ≡ true
      → has (list_group_member_user_ids db g st) u ≡ true
  unfolding list_group_member_user_ids
  roster_has g u st f e m = elim (Option-cases (find_group db g st)) [
    | inl n ↦ ground arith
    | inr (x, s) ↦
        rw (list_group_member_user_ids, s) (user_ids (λ j. is_member db g j st) u st.users e m)
  ]

  pub nodes_have :
      (g k : ℕ) (st : Store db)
      → is_some (find_group db g st) ≡ true
      → is_some (find_node db k st) ≡ true
      → is_shared db g k st ≡ true
      → has (list_group_node_ids db g st) k ≡ true
  unfolding list_group_node_ids
  nodes_have g k st f e m = elim (Option-cases (find_group db g st)) [
    | inl n ↦ ground arith
    | inr (x, s) ↦ rw (list_group_node_ids, s) (node_ids (λ j. is_shared db g j st) k st.nodes e m)
  ]
