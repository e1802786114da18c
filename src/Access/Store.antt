-- ===== src/Access/Store.antt =====
-- src/database/models/ (User.js, Group.js, Node.js, associations.js): the tables. A table of
-- entities is the list of its rows. The join tables are Sequelize's and are a parameter: what the
-- code relies on is how `add` and `remove` change the row of a pair. Ids, names and emails are
-- numbers; 0 is null or the empty string.
use virgo_fleet.Base.{
  ℕ, Bool, ◌&&◌, List, Option, none, some, ◌==◌, ◌≡◌, if◌then◌else◌, is_some, first,
}

pub record User : Type 0 where
  pub id : ℕ
  pub email : ℕ
  pub name : ℕ
  pub is_disabled : Bool

pub record Group : Type 0 where
  pub id : ℕ
  pub name : ℕ
  pub description : Option ℕ
  pub created_by_user_id : ℕ

pub record Node : Type 0 where
  pub node_id : ℕ
  pub owner_user_id : ℕ
  pub name : ℕ
  pub domain_name : ℕ
  pub token : ℕ
  pub last_seen_at : ℕ

pub data GroupRole : Type 0 where
  member manager : GroupRole

pub data NodeRole : Type 0 where
  owner admin : NodeRole

-- A `belongsToMany` association: `role a b` is the row that joins `a` to `b`, if there is one.
pub record Links (R : Type 0) : Type 1 where
  pub Table : Type 0
  pub role : ℕ → ℕ → Table → Option R
  pub add : ℕ → ℕ → R → Table → Table
  pub remove : ℕ → ℕ → Table → Table
  pub drop_left : ℕ → Table → Table
  pub drop_right : ℕ → Table → Table
  pub role-add :
      (a b c d : ℕ) (r : R) (t : Table)
      → role a b (add c d r t) ≡ (if (c == a) && (d == b) then some r else role a b t)
  pub role-remove :
      (a b c d : ℕ) (t : Table)
      → role a b (remove c d t) ≡ (if (c == a) && (d == b) then none else role a b t)
  pub role-drop_left :
      (a b c : ℕ) (t : Table) → role a b (drop_left c t) ≡ (if c == a then none else role a b t)
  pub role-drop_right :
      (a b d : ℕ) (t : Table) → role a b (drop_right d t) ≡ (if d == b then none else role a b t)

-- `UserGroup` joins a group to a user, `NodeAccess` a node to a user, `GroupNodeAccess` a group to
-- a node.
pub record Database : Type 1 where
  pub user_groups : Links GroupRole
  pub node_accesses : Links NodeRole
  pub group_node_accesses : Links (Unit {0})

module _ (db : Database) where
  pub record Store : Type 0 where
    pub users : List User
    pub groups : List Group
    pub nodes : List Node
    pub members : db.user_groups.Table
    pub grants : db.node_accesses.Table
    pub shares : db.group_node_accesses.Table

  -- `findByPk`, and `findOne` by a unique column.
  abbrev pub find_user : ℕ → Store → Option User
  find_user id st = first (λ u. u.id == id) st.users

  abbrev pub find_group : ℕ → Store → Option Group
  find_group id st = first (λ g. g.id == id) st.groups

  abbrev pub find_node : ℕ → Store → Option Node
  find_node node_id st = first (λ n. n.node_id == node_id) st.nodes

  -- Whether a join row exists.
  abbrev pub is_member : (group_id user_id : ℕ) → Store → Bool
  is_member g u st = is_some (db.user_groups.role g u st.members)

  abbrev pub is_granted : (node_id user_id : ℕ) → Store → Bool
  is_granted n u st = is_some (db.node_accesses.role n u st.grants)

  abbrev pub is_shared : (group_id node_id : ℕ) → Store → Bool
  is_shared g n st = is_some (db.group_node_accesses.role g n st.shares)
