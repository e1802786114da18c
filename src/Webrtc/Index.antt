-- ===== src/Webrtc/Index.antt =====
-- src/utils/webrtc_signal.js, `indexAdd` and `indexRemove`: the reverse indexes, maps from an
-- identifier to the set of the session ids under it, and what it is for an index to be true.
use virgo_fleet.Base.{
  ℕ, ◌≡◌, refl, Bool, false, not, ◌&&◌, ◌||◌, List, [], ◌∷◌, Option, none, some, arith, ◌==◌,
  if◌then◌else◌, same, has, add, delete, has-add, has-delete, lookup, insert, erase, members,
  lookup-insert, lookup-erase,
}

abbrev pub Index : Type 0
Index = List (ℕ × List ℕ)

-- A null or undefined key is not indexed.
unfoldable pub index_add : Option ℕ → ℕ → Index → Index
index_add none value map = map
index_add (some key) value map = insert key (add value (members key map)) map

abbrev remove_from : ℕ → List ℕ → Index → Index
remove_from key [] map = erase key map
remove_from key (x ∷ xs) map = insert key (x ∷ xs) map

unfoldable pub index_remove : Option ℕ → ℕ → Index → Index
index_remove none value map = map
index_remove (some key) value map = elim (lookup key map) [
  | none ↦ map
  | some set ↦ remove_from key (delete value set) map
]

pub has-index_add :
    (key : Option ℕ) (value : ℕ) (map : Index) (k z : ℕ)
    → has (members k (index_add key value map)) z
      ≡ (same key (some k) && value == z || has (members k map) z)
unfolding index_add
has-index_add none value map k z = refl
has-index_add (some key) value map k z = ground (
  arith,
  lookup-insert key k (add value (members key map)) map,
  has-add value (members key map) z,
)

members-remove_from :
    (key : ℕ) (set : List ℕ) (map : Index) (k : ℕ)
    → members k (remove_from key set map) ≡ (if key == k then set else members k map)
members-remove_from key [] map k = ground (arith, lookup-erase key k map)
members-remove_from key (x ∷ xs) map k = ground (arith, lookup-insert key k (x ∷ xs) map)

pub has-index_remove :
    (key : Option ℕ) (value : ℕ) (map : Index) (k z : ℕ)
    → has (members k (index_remove key value map)) z
      ≡ (not (same key (some k) && value == z) && has (members k map) z)
unfolding index_remove
has-index_remove none value map k z = refl
has-index_remove (some key) value map k z = go (lookup key map) refl
  where
    go :
        (o : Option (List ℕ))
        → lookup key map ≡ o
        → has (members k (index_remove (some key) value map)) z
          ≡ (not (key == k && value == z) && has (members k map) z)
    go none e = rw (e, index_remove) (ground arith)
    go (some set) e =
        rw (e, index_remove)
          (ground (arith, members-remove_from key (delete value set) map k, has-delete value set z))

-- An index is true of a map of values if it holds an id under a key exactly when the map has a
-- value under that id, and the value's own key is that key.
module _ {ℓ} {V : Type ℓ} (key_of : V → Option ℕ) where
  abbrev pub held : ℕ → Option V → Bool
  held k none = false
  held k (some v) = same (key_of v) (some k)

  abbrev pub Tracks : List (ℕ × V) → Index → Type 0
  Tracks values map = (k id : ℕ) → has (members k map) id ≡ held k (lookup id values)

  pub Tracks-insert :
      (id : ℕ) (v : V) (values : List (ℕ × V)) (map : Index)
      → lookup id values ≡ none
      → Tracks values map
      → Tracks (insert id v values) (index_add (key_of v) id map)
  Tracks-insert id v values map fresh t k z =
      ground
        (arith, has-index_add (key_of v) id map k z, lookup-insert id z v values, t k z, t k id)

  pub Tracks-erase :
      (id : ℕ) (v : V) (values : List (ℕ × V)) (map : Index)
      → lookup id values ≡ some v
      → Tracks values map
      → Tracks (erase id values) (index_remove (key_of v) id map)
  Tracks-erase id v values map found t k z =
      ground
        (arith, has-index_remove (key_of v) id map k z, lookup-erase id z values, t k z, t k id)

  pub Tracks-update :
      (id : ℕ) (v w : V) (values : List (ℕ × V)) (map : Index)
      → lookup id values ≡ some v
      → key_of w ≡ key_of v
      → Tracks values map
      → Tracks (insert id w values) map
  Tracks-update id v w values map found e t k z =
      ground (arith, lookup-insert id z w values, t k z, t k id)

  pub Tracks-move :
      (id : ℕ) (v w : V) (values : List (ℕ × V)) (map : Index)
      → lookup id values ≡ some v
      → Tracks values map
      → Tracks (insert id w values) (index_add (key_of w) id (index_remove (key_of v) id map))
  Tracks-move id v w values map found t k z = ground (
    arith,
    has-index_add (key_of w) id (index_remove (key_of v) id map) k z,
    has-index_remove (key_of v) id map k z,
    lookup-insert id z w values,
    t k z,
    t k id,
  )
