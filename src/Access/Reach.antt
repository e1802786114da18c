-- ===== src/Access/Reach.antt =====
-- src/services/data_service.js: who reaches which node, said without the list that
-- `listAccessibleNodes` builds.
use virgo_fleet.Base.{
  ℕ, ◌≡◌, refl, ap, Bool, true, ◌&&◌, ◌||◌, List, [], ◌∷◌, arith, ◌==◌, is_some, first, any, keep,
  each, Option-cases, inl, inr, Bool-cases, sym, ==_iff,
}
use virgo_fleet.Access.Store.{
  Group, Node, Database, Store, find_user, find_node, is_member, is_granted, is_shared,
}
use virgo_fleet.Access.Queries.{
  AccessibleNode, put, is_listed, list_direct, list_shared, nodes_of, groups_of, nodes_of_group,
  accessible, direct, through_group, list_group, list_accessible_nodes, can_user_access_node,
}

is_listed-put :
    (n : ℕ) (a : AccessibleNode) (m : List AccessibleNode)
    → is_listed n (put a m) ≡ (a.node_id == n || is_listed n m)
unfolding put
is_listed-put n a [] = refl
is_listed-put n a (b ∷ m) = ground (arith, is_listed-put n a m)

abbrev is_named : ℕ → Node → Bool
is_named n x = x.node_id == n

listed_direct_once :
    (u n : ℕ) (x : Node) (m : List AccessibleNode)
    → is_listed n (list_direct u x m) ≡ (x.node_id == n || is_listed n m)
unfolding list_direct
listed_direct_once u n x m = is_listed-put n (accessible u direct x) m

listed_direct :
    (u n : ℕ) (xs : List Node) (m : List AccessibleNode)
    → is_listed n (each (list_direct u) xs m) ≡ (any (is_named n) xs || is_listed n m)
unfolding each
listed_direct u n [] m = refl
listed_direct u n (x ∷ xs) m =
    rw (listed_direct u n xs (list_direct u x m), listed_direct_once u n x m) (ground arith)

-- A node that is listed already is listed.
listed_shared_once :
    (u n : ℕ) (x : Node) (m : List AccessibleNode)
    → is_listed n (list_shared u x m) ≡ (x.node_id == n || is_listed n m)
unfolding list_shared
listed_shared_once u n x m = elim (Bool-cases (is_listed x.node_id m)) [
  | inl e ↦ rw e (by_name (x.node_id) n m e)
  | inr e ↦ rw e (is_listed-put n (accessible u through_group x) m)
]
  where
    same_listed : (k n : ℕ) (m : List AccessibleNode) → k ≡ n → is_listed k m ≡ is_listed n m
    same_listed k n m e = cc

    by_name :
        (k n : ℕ) (m : List AccessibleNode)
        → is_listed k m ≡ true
        → is_listed n m ≡ (k == n || is_listed n m)
    by_name k n m e = elim (Bool-cases (k == n)) [
      | inl h ↦ rw (h, sym (same_listed k n m (ground (arith, ==_iff k n)))) e
      | inr h ↦ rw h refl
    ]

listed_shared :
    (u n : ℕ) (xs : List Node) (m : List AccessibleNode)
    → is_listed n (each (list_shared u) xs m) ≡ (any (is_named n) xs || is_listed n m)
unfolding each
listed_shared u n [] m = refl
listed_shared u n (x ∷ xs) m =
    rw (listed_shared u n xs (list_shared u x m), listed_shared_once u n x m) (ground arith)

named_keep :
    (p : ℕ → Bool) (n : ℕ) (xs : List Node)
    → any (is_named n) (keep (λ x. p x.node_id) xs)
      ≡ (is_some (first (λ x. x.node_id == n) xs) && p n)
named_keep p n [] = ground arith
named_keep p n (x ∷ xs) = ground (arith, named_keep p n xs, ap p)

module _ (db : Database) where
  listed_groups :
      (u n : ℕ) (st : Store db) (gs : List Group) (m : List AccessibleNode)
      → is_listed n (each (list_group db u st) gs m)
        ≡ (any (λ g. any (is_named n) (nodes_of_group db g.id st)) gs || is_listed n m)
  unfolding each list_group
  listed_groups u n st [] m = refl
  listed_groups u n st (g ∷ gs) m =
      rw
        (
          listed_groups u n st gs (each (list_shared u) (nodes_of_group db g.id st) m),
          listed_shared u n (nodes_of_group db g.id st) m,
        )
        (ground arith)

  -- Some group that the user is in shares the node.
  abbrev pub covered : (user_id node_id : ℕ) → Store db → Bool
  covered u n st = any (λ g. is_member db g.id u st && is_shared db g.id n st) st.groups

  -- Both exist, and the node is granted to the user or shared with a group of theirs.
  abbrev pub reaches : (user_id node_id : ℕ) → Store db → Bool
  reaches u n st =
      is_some (find_user db u st)
      && (is_some (find_node db n st) && (is_granted db n u st || covered u n st))

  named_groups :
      (u n : ℕ) (st : Store db) (gs : List Group)
      → any
          (λ g. any (is_named n) (nodes_of_group db g.id st))
          (keep (λ g. is_member db g.id u st) gs)
        ≡ (is_some (find_node db n st)
            && any (λ g. is_member db g.id u st && is_shared db g.id n st) gs)
  named_groups u n st [] = ground arith
  named_groups u n st (g ∷ gs) =
      ground (arith, named_groups u n st gs, named_keep (λ k. is_shared db g.id k st) n st.nodes)

  -- `canUserAccessNode` answers true exactly where the user and the node exist and the node is
  -- granted to the user directly or shared with a group that the user is in.
  pub can_user_access_node_lem :
      (u n : ℕ) (st : Store db) → can_user_access_node db u n st ≡ reaches u n st
  unfolding can_user_access_node list_accessible_nodes
  can_user_access_node_lem u n st = elim (Option-cases (find_user db u st)) [
    | inl e ↦ rw (can_user_access_node, list_accessible_nodes, e) refl
    | inr (x, e) ↦
        rw
          (
            can_user_access_node,
            list_accessible_nodes,
            e,
            listed_groups u n st (groups_of db u st) (each (list_direct u) (nodes_of db u st) []),
            listed_direct u n (nodes_of db u st) [],
            named_groups u n st st.groups,
            named_keep (λ k. is_granted db k u st) n st.nodes,
          )
          (ground arith)
  ]
