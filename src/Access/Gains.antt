-- ===== src/Access/Gains.antt =====
-- src/services/data_service.js: the operations that only add rows take no one's access away.
use virgo_fleet.Base.{
  ℕ, ◌≡◌, true, ◌&&◌, List, [], ◌∷◌, ◌++◌, arith, ◌==◌, if◌then◌else◌, any, map, Option, none, some,
  Bool-cases, inl, inr,
}
use virgo_fleet.Access.Store.{Group, GroupRole, NodeRole, Database, Store, is_member, is_shared}
use virgo_fleet.Access.Changes.{renamed, with_group}
use virgo_fleet.Access.Reach.{reaches}

module _ (db : Database) (u k : ℕ) where
  pub reaches-grant :
      (n v : ℕ) (role : NodeRole) (st : Store db)
      → reaches db u k st ≡ true
      → reaches db u k (record st { grants = db.node_accesses.add n v role st.grants }) ≡ true
  reaches-grant n v role st h = rw (db.node_accesses.role-add k u n v role st.grants) (ground arith)

  abbrev pub with_member : ℕ → ℕ → GroupRole → Store db → Store db
  with_member g v role st = record st { members = db.user_groups.add g v role st.members }

  pub reaches-member :
      (g v : ℕ) (role : GroupRole) (st : Store db)
      → reaches db u k st ≡ true
      → reaches db u k (with_member g v role st) ≡ true
  reaches-member g v role st h = ground (arith, go st.groups)
    where
      go :
          (gs : List Group)
          → any (λ x. is_member db x.id u st && is_shared db x.id k st) gs ≡ true
          → any (λ x. is_member db x.id u (with_member g v role st) && is_shared db x.id k st) gs
            ≡ true
      go [] f = f
      go (x ∷ gs) f =
          rw (db.user_groups.role-add x.id u g v role st.members) (ground (arith, go gs))

  pub reaches-group :
      (g : Group) (st : Store db)
      → reaches db u k st ≡ true
      → reaches db u k (with_group db g st) ≡ true
  reaches-group g st h = ground (arith, go st.groups)
    where
      go :
          (gs : List Group)
          → any (λ x. is_member db x.id u st && is_shared db x.id k st) gs ≡ true
          → any (λ x. is_member db x.id u st && is_shared db x.id k st) (gs ++ g ∷ []) ≡ true
      go [] f = ground arith
      go (x ∷ gs) f = ground (arith, go gs)

  abbrev pub with_update : ℕ → ℕ → Option (Option ℕ) → Store db → Store db
  with_update g new_name description st = record st {
    groups = map (λ h. if h.id == g then renamed db new_name description h else h) st.groups;
  }

  pub reaches-update :
      (g new_name : ℕ) (description : Option (Option ℕ)) (st : Store db)
      → reaches db u k st ≡ true
      → reaches db u k (with_update g new_name description st) ≡ true
  reaches-update g new_name description st h = ground (arith, go st.groups)
    where
      same_id : (d : Option (Option ℕ)) (x : Group) → (renamed db new_name d x).id ≡ x.id
      same_id none x = ground arith
      same_id (some d) x = ground arith

      go :
          (gs : List Group)
          → any (λ x. is_member db x.id u st && is_shared db x.id k st) gs ≡ true
          → any
              (λ x. is_member db x.id u st && is_shared db x.id k st)
              (map (λ h. if h.id == g then renamed db new_name description h else h) gs)
            ≡ true
      go [] f = f
      go (x ∷ gs) f = elim (Bool-cases (x.id == g)) [
        | inl e ↦ rw (e, same_id description x) (ground (arith, go gs))
        | inr e ↦ rw e (ground (arith, go gs))
      ]
