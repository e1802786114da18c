-- ===== src/Access/Outcomes.antt =====
-- What a change of the access tables that does not throw has found and done.
use virgo_fleet.Base.{
  ℕ, ◌≡◌, refl, ap, Bool, true, false, not, Option, none, some, both, is_some, if◌then◌else◌, ◌==◌,
  keep, map, arith, [],
}
use virgo_fleet.Access.Store.{
  User, GroupRole, Node, NodeRole, Database, Store, find_group, find_node,
}
use virgo_fleet.Access.Queries.{get_user_by_email}
use virgo_fleet.Access.Changes.{
  Fault, Result, throws, returns, grant_group_node_access, revoke_group_node_access, delete_group,
  revoke_node_access, remove_user_from_group, grant_node_access, add_user_to_group, update_group,
  renamed, delete_node,
}
use virgo_fleet.Access.Handlers.{Outcome, attempt, failed}

both_returns {ℓ κ ν} :
    {A : Type ℓ} {B : Type κ} {C : Type ν} (o : Option A) (p : Option B) (f : A → B → Result C)
    (e : Fault) (c : C)
    → elim (both o p) [ some (a, b) ↦ f a b | none ↦ throws e ] ≡ returns c
    → (a : A) × (b : B) × (o ≡ some a) × (p ≡ some b) × (f a b ≡ returns c)
both_returns none p f e c h = ground arith
both_returns (some a) none f e c h = ground arith
both_returns (some a) (some b) f e c h = (a, b, refl, refl, h)

one_returns {ℓ κ} :
    {A : Type ℓ} {C : Type κ} (o : Option A) (f : A → Result C) (e : Fault) (c : C)
    → elim o [ none ↦ throws e | some a ↦ f a ] ≡ returns c
    → (a : A) × (o ≡ some a) × (f a ≡ returns c)
one_returns none f e c h = ground arith
one_returns (some a) f e c h = (a, refl, h)

pub throws_returns {ℓ κ} : {A : Type ℓ} {B : Type κ} (e : Fault) (a : A) → throws e ≡ returns a → B
throws_returns e a h = ground arith

pub returns_inj {ℓ} : {A : Type ℓ} (a b : A) → returns a ≡ returns b → a ≡ b
returns_inj a b h = cc

unless_returns {ℓ} :
    {C : Type ℓ} (b : Bool) (e : Fault) (a c : C)
    → (if b then throws e else returns a) ≡ returns c
    → (b ≡ false) × (a ≡ c)
unless_returns true e a c h = ground arith
unless_returns false e a c h = (refl, returns_inj a c h)

pub Result_keeps {ℓ κ ν} :
    {A : Type ℓ} {B : Type κ} (P : B → Type ν) (r : Result A) (f : Fault → B) (g : A → B)
    → ((e : Fault) → P (f e))
    → ((a : A) → r ≡ returns a → P (g a))
    → P (elim r [ throws e ↦ f e | returns a ↦ g a ])
Result_keeps P (throws e) f g h k = h e
Result_keeps P (returns a) f g h k = k a refl

module _ (db : Database) where
  pub attempt_keeps {κ} :
      (P : Outcome db → Type κ) (r : Result (Store db)) (st : Store db) (k : Store db → Outcome db)
      → ((e : Fault) → P (st, [], failed e))
      → ((st' : Store db) → r ≡ returns st' → P (k st'))
      → P (attempt db r st k)
  unfolding attempt
  attempt_keeps P (throws e) st k f g = f e
  attempt_keeps P (returns st') st k f g = g st' refl

  pub grant_group_node_access-returns :
      (g n : ℕ) (st st' : Store db)
      → grant_group_node_access db g n st ≡ returns st'
      → (is_some (find_group db g st) ≡ true)
        × (record st { shares = db.group_node_accesses.add g n tt st.shares } ≡ st')
  unfolding grant_group_node_access
  grant_group_node_access-returns g n st st' h =
      let (a, b, e, f, i) = both_returns (find_group db g st) (find_node db n st) _ _ st' h in
      (ap is_some e, returns_inj _ st' i)

  pub revoke_group_node_access-returns :
      (g n : ℕ) (st st' : Store db)
      → revoke_group_node_access db g n st ≡ returns st'
      → (is_some (find_group db g st) ≡ true)
        × (record st { shares = db.group_node_accesses.remove g n st.shares } ≡ st')
  unfolding revoke_group_node_access
  revoke_group_node_access-returns g n st st' h =
      let (a, b, e, f, i) = both_returns (find_group db g st) (find_node db n st) _ _ st' h in
      (ap is_some e, returns_inj _ st' i)

  pub revoke_node_access-returns :
      (email n : ℕ) (st st' : Store db)
      → revoke_node_access db email n st ≡ returns st'
      → (u : User) × (x : Node) × (get_user_by_email db email st ≡ some u)
        × (find_node db n st ≡ some x)
        × ((x.owner_user_id == u.id) ≡ false)
        × (record st { grants = db.node_accesses.remove n u.id st.grants } ≡ st')
  unfolding revoke_node_access
  revoke_node_access-returns email n st st' h =
      let (u, x, e, f, i) =
        both_returns (get_user_by_email db email st) (find_node db n st) _ _ st' h in
      let (j, k) = unless_returns (x.owner_user_id == u.id) _ _ st' i in (u, x, e, f, j, k)

  pub remove_user_from_group-returns :
      (g email : ℕ) (st st' : Store db)
      → remove_user_from_group db g email st ≡ returns st'
      → (u : User) × (is_some (find_group db g st) ≡ true)
        × (get_user_by_email db email st ≡ some u)
        × (record st { members = db.user_groups.remove g u.id st.members } ≡ st')
  unfolding remove_user_from_group
  remove_user_from_group-returns g email st st' h =
      let (a, u, e, f, i) =
        both_returns (find_group db g st) (get_user_by_email db email st) _ _ st' h in
      (u, ap is_some e, f, returns_inj _ st' i)

  -- The group's row goes, and the rows that join it.
  abbrev pub without_group : ℕ → Store db → Store db
  without_group g st = record st {
    groups = keep (λ h. not (h.id == g)) st.groups;
    members = db.user_groups.drop_left g st.members;
    shares = db.group_node_accesses.drop_left g st.shares;
  }

  pub delete_group-returns :
      (g : ℕ) (st st' : Store db)
      → delete_group db g st ≡ returns st'
      → (is_some (find_group db g st) ≡ true) × (without_group g st ≡ st')
  unfolding delete_group
  delete_group-returns g st st' h =
      let (a, e, i) = one_returns (find_group db g st) _ _ st' h in
      (ap is_some e, returns_inj _ st' i)

  pub grant_node_access-returns :
      (email n : ℕ) (role : NodeRole) (st st' : Store db)
      → grant_node_access db email n role st ≡ returns st'
      → (u : User) × (get_user_by_email db email st ≡ some u)
        × (record st { grants = db.node_accesses.add n u.id role st.grants } ≡ st')
  unfolding grant_node_access
  grant_node_access-returns email n role st st' h =
      let (u, x, e, f, i) =
        both_returns (get_user_by_email db email st) (find_node db n st) _ _ st' h in
      (u, e, returns_inj _ st' i)

  pub add_user_to_group-returns :
      (g email : ℕ) (role : GroupRole) (st st' : Store db)
      → add_user_to_group db g email role st ≡ returns st'
      → (u : User) × (get_user_by_email db email st ≡ some u)
        × (record st { members = db.user_groups.add g u.id role st.members } ≡ st')
  unfolding add_user_to_group
  add_user_to_group-returns g email role st st' h =
      let (a, u, e, f, i) =
        both_returns (find_group db g st) (get_user_by_email db email st) _ _ st' h in
      (u, f, returns_inj _ st' i)

  pub update_group-returns :
      (g new_name : ℕ) (description : Option (Option ℕ)) (st st' : Store db)
      → update_group db g description new_name st ≡ returns st'
      → record st {
        groups = map (λ h. if h.id == g then renamed db new_name description h else h) st.groups;
      }
        ≡ st'
  unfolding update_group
  update_group-returns g new_name description st st' h =
      let (a, e, i) = one_returns (find_group db g st) _ _ st' h in returns_inj _ st' i

  -- The node's row goes, and the rows that join it.
  abbrev pub without_node : ℕ → Store db → Store db
  without_node n st = record st {
    nodes = keep (λ m. not (m.node_id == n)) st.nodes;
    grants = db.node_accesses.drop_left n st.grants;
    shares = db.group_node_accesses.drop_right n st.shares;
  }

  pub delete_node-returns :
      (n : ℕ) (st st' : Store db) → delete_node db n st ≡ returns st' → without_node n st ≡ st'
  unfolding delete_node
  delete_node-returns n st st' h =
      let (a, e, i) = one_returns (find_node db n st) _ _ st' h in returns_inj _ st' i
