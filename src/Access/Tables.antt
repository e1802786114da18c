-- ===== src/Access/Tables.antt =====
-- A join table as the list of its rows: what the access model asks of Sequelize can be had.
use virgo_fleet.Base.{
  ℕ, ◌≡◌, refl, not, ◌&&◌, List, [], ◌∷◌, arith, ◌==◌, if◌then◌else◌, keep, Option, none, some,
}
use virgo_fleet.Access.Store.{Links, GroupRole, NodeRole, Database}

pub record Row (R : Type 0) : Type 0 where
  pub left : ℕ
  pub right : ℕ
  pub value : R

module _ (R : Type 0) where
  abbrev pub role : ℕ → ℕ → List (Row R) → Option R
  role a b [] = none
  role a b (r ∷ t) = if (r.left == a) && (r.right == b) then some r.value else role a b t

  abbrev pub row : ℕ → ℕ → R → Row R
  row a b r = record { left = a; right = b; value = r }

  pub role-keep_pair :
      (a b c d : ℕ) (t : List (Row R))
      → role a b (keep (λ r. not ((r.left == c) && (r.right == d))) t)
        ≡ (if (c == a) && (d == b) then none else role a b t)
  role-keep_pair a b c d [] = ground arith
  role-keep_pair a b c d (r ∷ t) = ground (arith, role-keep_pair a b c d t)

  pub role-keep_left :
      (a b c : ℕ) (t : List (Row R))
      → role a b (keep (λ r. not (r.left == c)) t) ≡ (if c == a then none else role a b t)
  role-keep_left a b c [] = ground arith
  role-keep_left a b c (r ∷ t) = ground (arith, role-keep_left a b c t)

  pub role-keep_right :
      (a b d : ℕ) (t : List (Row R))
      → role a b (keep (λ r. not (r.right == d)) t) ≡ (if d == b then none else role a b t)
  role-keep_right a b d [] = ground arith
  role-keep_right a b d (r ∷ t) = ground (arith, role-keep_right a b d t)

  abbrev pub table : Links R
  table = record {
    Table = List (Row R);
    role = role;
    add = λ a b r t. row a b r ∷ t;
    remove = λ c d t. keep (λ r. not ((r.left == c) && (r.right == d))) t;
    drop_left = λ c t. keep (λ r. not (r.left == c)) t;
    drop_right = λ d t. keep (λ r. not (r.right == d)) t;
    role-add = λ a b c d r t. refl;
    role-remove = role-keep_pair;
    role-drop_left = role-keep_left;
    role-drop_right = role-keep_right;
  }

abbrev pub database : Database
database = record {
  user_groups = table GroupRole;
  node_accesses = table NodeRole;
  group_node_accesses = table (Unit {0});
}
