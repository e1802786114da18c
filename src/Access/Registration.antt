-- ===== src/Access/Registration.antt =====
-- src/services/data_service.js, lines 809 to 868: registration of a node, and the token that it keeps
-- for its later connections. The hash, the format of a token and a fresh token are arguments.
use virgo_fleet.Base.{
  ℕ, Bool, not, ◌&&◌, ◌||◌, [], ◌∷◌, ◌++◌, Option, none, some, ◌==◌, if◌then◌else◌, first, map,
}
use virgo_fleet.Access.Store.{Node, Database, Store, find_node}
use virgo_fleet.Access.Changes.{
  Result, throws, returns, node_id_required, invalid_node_token, registered_to_another,
  already_registered,
}

pub record Tokens : Type 0 where
  pub hash : ℕ → ℕ
  pub is_well_formed : ℕ → Bool

-- What `node:register` hands over; a name, a token or an owner that is left out is 0.
pub record Registration : Type 0 where
  pub node_id : ℕ
  pub name : ℕ
  pub owner_user_id : ℕ
  pub current_token : ℕ
  pub proposed_token : ℕ

-- `matchesNodeToken`
unfoldable pub matches_node_token : Tokens → (stored_hash token : ℕ) → Bool
matches_node_token tokens stored_hash token =
    not (token == 0) && (not (stored_hash == 0) && stored_hash == tokens.hash token)

abbrev pub or_else : ℕ → ℕ → ℕ
or_else a b = if a == 0 then b else a

-- The row that `findOrCreate` makes, and what is then set on the row either way.
abbrev pub created_node : Tokens → (now token : ℕ) → Registration → Node
created_node tokens now token r = record {
  node_id = r.node_id;
  owner_user_id = r.owner_user_id;
  name = or_else r.name r.node_id;
  domain_name = 0;
  token = tokens.hash token;
  last_seen_at = now;
}

abbrev pub registered_node : Tokens → (now token : ℕ) → Registration → Node → Node
registered_node tokens now token r n = record n {
  token = tokens.hash token;
  name = or_else r.name n.name;
  last_seen_at = now;
  owner_user_id = or_else r.owner_user_id n.owner_user_id;
}

abbrev pub is_taken : Registration → Node → Bool
is_taken r n =
    not (r.owner_user_id == 0)
    && (not (n.owner_user_id == 0) && not (n.owner_user_id == r.owner_user_id))

abbrev pub is_proved : Tokens → Registration → Node → Bool
is_proved tokens r n =
    matches_node_token tokens n.token r.current_token
    || matches_node_token tokens n.token r.proposed_token

module _ (db : Database) (tokens : Tokens) where
  abbrev pub save_node : Node → Store db → Store db
  save_node n st = record st { nodes = map (λ m. if m.node_id == n.node_id then n else m) st.nodes }

  abbrev pub create_node : Node → Store db → Store db
  create_node n st = record st { nodes = st.nodes ++ n ∷ [] }

  -- From `findOrCreate` on.
  unfoldable pub register_node : (now token : ℕ) → Registration → Store db → Result (Store db)
  register_node now token r st = elim (find_node db r.node_id st) [
    | none ↦
        returns
          (create_node (registered_node tokens now token r (created_node tokens now token r)) st)
    | some n ↦
        if is_taken r n
        then throws registered_to_another
        else if not (is_proved tokens r n)
        then throws already_registered
        else returns (save_node (registered_node tokens now token r n) st)
  ]

  -- `upsertNode`, the store after it; the token it answers with is the proposed or the fresh one.
  unfoldable pub upsert_node : (now fresh : ℕ) → Registration → Store db → Result (Store db)
  upsert_node now fresh r st =
      if r.node_id == 0
      then throws node_id_required
      else if not (r.proposed_token == 0) && not (tokens.is_well_formed r.proposed_token)
      then throws invalid_node_token
      else register_node now (or_else r.proposed_token fresh) r st

  -- `getNodeByToken`
  unfoldable pub get_node_by_token : ℕ → Store db → Option Node
  get_node_by_token token st =
      if token == 0 then none else first (λ n. n.token == tokens.hash token) st.nodes
