-- ===== src/Access/Ownership.antt =====
-- src/services/data_service.js, `upsertNode`: what a registration can do to the nodes there are.
use virgo_fleet.Base.{
  ℕ, ◌≡◌, refl, sym, ap, ◌∙◌, true, false, not, ◌&&◌, ◌||◌, List, [], ◌∷◌, ◌++◌, some, arith, ◌==◌,
  ==_iff, ==_refl, if◌then◌else◌, if_keeps, first, map, Bool-cases, inl, inr, ◌⊎◌, Option_keeps,
}
use virgo_fleet.Access.Store.{Node, Database, Store, find_node}
use virgo_fleet.Access.Changes.{Result, returns}
use virgo_fleet.Access.Outcomes.{returns_inj, throws_returns}
use virgo_fleet.Access.Registration.{
  Tokens, Registration, registered_node, is_taken, is_proved, save_node, register_node, upsert_node,
}

first-append :
    (k : ℕ) (n x : Node) (xs : List Node)
    → first (λ m. m.node_id == k) xs ≡ some n
    → first (λ m. m.node_id == k) (xs ++ x ∷ []) ≡ some n
first-append k n x [] h = ground arith
first-append k n x (y ∷ xs) h = ground (arith, first-append k n x xs)

-- A saved row replaces the row with its id and no other.
first_saved :
    (k : ℕ) (n x : Node) (xs : List Node)
    → first (λ m. m.node_id == k) xs ≡ some n
    → first (λ m. m.node_id == k) (map (λ m. if m.node_id == x.node_id then x else m) xs)
      ≡ some (if k == x.node_id then x else n)
first_saved k n x [] h = ground arith
first_saved k n x (y ∷ xs) h = elim (Bool-cases (y.node_id == x.node_id)) [
  | inl e ↦ rw e (ground (arith, first_saved k n x xs))
  | inr e ↦ rw e (ground (arith, first_saved k n x xs))
]

module _ (db : Database) (tokens : Tokens) where
  -- The node under an id after a registration: its owner, where it had one, is as before, and it is
  -- as before unless it is the one that registers, with its token.
  abbrev pub IsKept : ℕ → Node → Registration → Store db → Type 0
  IsKept k n r st' =
      (m : Node) × (find_node db k st' ≡ some m)
      × ((n.owner_user_id == 0 || m.owner_user_id == n.owner_user_id) ≡ true)
      × ((m ≡ n) ⊎ ((k ≡ r.node_id) × (is_proved tokens r n ≡ true)))

  abbrev KeptBy : ℕ → Node → Registration → Result (Store db) → Type 0
  KeptBy k n r o = (st' : Store db) → o ≡ returns st' → IsKept k n r st'

  saved-IsKept :
      (now token k : ℕ) (n x : Node) (r : Registration) (st : Store db)
      → find_node db k st ≡ some n
      → find_node db r.node_id st ≡ some x
      → x.node_id ≡ r.node_id
      → is_taken r x ≡ false
      → is_proved tokens r x ≡ true
      → IsKept k n r (save_node db tokens (registered_node tokens now token r x) st)
  saved-IsKept now token k n x r st f g i t p = elim (Bool-cases (k == x.node_id)) [
    | inl e ↦
        let same : k ≡ r.node_id = (==_iff k x.node_id).0 e ∙ i in
        let one : some n ≡ some x = sym f ∙ ap (λ j. find_node db j st) same ∙ g in
        let nx : n ≡ x = cc in
        (
          registered_node tokens now token r x,
          first_saved k n (registered_node tokens now token r x) st.nodes f
              ∙ ap (λ b. some (if b then registered_node tokens now token r x else n)) e,
          rw nx (ground (arith)),
          inr (same, rw nx p),
        )
    | inr e ↦ (
      n,
      first_saved k n (registered_node tokens now token r x) st.nodes f
          ∙ ap (λ b. some (if b then registered_node tokens now token r x else n)) e,
      ground (arith),
      inl refl,
    )
  ]

  found_id :
      (k : ℕ) (x : Node) (xs : List Node) → first (λ m. m.node_id == k) xs ≡ some x → x.node_id ≡ k
  found_id k x [] h = ground arith
  found_id k x (y ∷ xs) h = ground (arith, found_id k x xs)

  moved :
      (k : ℕ) (n : Node) (r : Registration) (a st' : Store db)
      → a ≡ st'
      → IsKept k n r a
      → IsKept k n r st'
  moved k n r a st' e h = rw (sym e) h

  register_node-KeptBy :
      (now token k : ℕ) (n : Node) (r : Registration) (st : Store db)
      → find_node db k st ≡ some n
      → KeptBy k n r (register_node db tokens now token r st)
  unfolding register_node
  register_node-KeptBy now token k n r st f =
      Option_keeps (KeptBy k n r) (find_node db r.node_id st) _ _
        (λ _ st' e.
          moved k n r _ st' (returns_inj _ st' e)
            (n, first-append k n _ st.nodes f, ground (arith, ==_refl n.owner_user_id), inl refl))
        λ x g.
          if_keeps (KeptBy k n r) (is_taken r x) _ _ (λ _ st' e. throws_returns _ _ e)
            λ t.
              if_keeps (KeptBy k n r) (not (is_proved tokens r x)) _ _
                (λ _ st' e. throws_returns _ _ e)
                λ p st' e. moved k n r _ st' (returns_inj _ st' e) (
                  saved-IsKept now token k n x r st f g (found_id r.node_id x st.nodes g) t
                    (ground (arith)))

  -- A registration that succeeds does not take a node from its owner: of every node that there was,
  -- the owner stays, if it had one, and the node is as it was unless it is the one that registers
  -- and a token that was presented is its own.
  pub upsert_node-IsKept :
      (now fresh k : ℕ) (n : Node) (r : Registration) (st st' : Store db)
      → find_node db k st ≡ some n
      → upsert_node db tokens now fresh r st ≡ returns st'
      → IsKept k n r st'
  unfolding upsert_node
  upsert_node-IsKept now fresh k n r st st' f =
      if_keeps (λ o. o ≡ returns st' → IsKept k n r st') (r.node_id == 0) _ _
        (λ _ e. throws_returns _ _ e)
        λ _.
          if_keeps (λ o. o ≡ returns st' → IsKept k n r st')
            (not (r.proposed_token == 0) && not (tokens.is_well_formed r.proposed_token)) _ _
            (λ _ e. throws_returns _ _ e) λ _. register_node-KeptBy now _ k n r st f st'
