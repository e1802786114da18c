-- ===== src/Base/Maps.antt =====
-- JavaScript's `Map` with identifiers for keys, as an association list in insertion order, and maps
-- whose values are sets.
use Prim.Native.Nat.{ℕ}
use mathlib.Core.Logic.{inl, inr}
use mathlib.Core.Path.{◌≡◌, refl}
use mathlib.Core.Bool.{false}
use mathlib.Core.Option.{Option, none, some}
use mathlib.Core.List.{List, [], ◌∷◌}
use native.Mathlib.Omega.{arith}
use virgo_fleet.Base.Tests.{◌==◌, ==_iff, Bool-cases, if◌then◌else◌}
use virgo_fleet.Base.Lists.{has}

module _ {ℓ} {V : Type ℓ} where
  -- `map.get(key)`
  unfoldable pub lookup : (key : ℕ) → List (ℕ × V) → Option V
  lookup key [] = none
  lookup key (entry ∷ rest) = if entry.0 == key then some entry.1 else lookup key rest

  -- `map.set(key, value)`
  unfoldable pub insert : (key : ℕ) → V → List (ℕ × V) → List (ℕ × V)
  insert key value [] = (key, value) ∷ []
  insert key value (entry ∷ rest) =
      if entry.0 == key then (key, value) ∷ rest else entry ∷ insert key value rest

  -- `map.delete(key)`
  unfoldable pub erase : (key : ℕ) → List (ℕ × V) → List (ℕ × V)
  erase key [] = []
  erase key (entry ∷ rest) = if entry.0 == key then erase key rest else entry ∷ erase key rest

  -- `for (const [key, value] of map) { map.set(key, f(key, value)); }`
  unfoldable pub revise : (ℕ → V → V) → List (ℕ × V) → List (ℕ × V)
  revise f [] = []
  revise f ((k, v) ∷ rest) = (k, f k v) ∷ revise f rest

  -- What is read under any key after the values are revised.
  pub lookup-revise :
      (f : ℕ → V → V) (read : ℕ) (entries : List (ℕ × V))
      → lookup read (revise f entries)
        ≡ elim (lookup read entries) [ none ↦ none | some v ↦ some (f read v) ]
  unfolding revise lookup
  lookup-revise f read [] = refl
  lookup-revise f read ((k, v) ∷ rest) = elim (Bool-cases (k == read)) [
    | inl e ↦ rw (e, lookup) (let k' : k ≡ read = (==_iff k read).0 e in rw k')
    | inr e ↦ rw (e, lookup) (lookup-revise f read rest)
  ]

  -- `[...map.keys()]`
  abbrev pub keys : List (ℕ × V) → List ℕ
  keys [] = []
  keys ((k, v) ∷ m) = k ∷ keys m

  -- What is read under any key after a key is set or deleted.
  pub lookup-insert :
      (set read : ℕ) (value : V) (entries : List (ℕ × V))
      → lookup read (insert set value entries)
        ≡ (if set == read then some value else lookup read entries)
  unfolding insert lookup
  lookup-insert set read value [] = refl
  lookup-insert set read value (entry ∷ rest) = ground (lookup-insert set read value rest, arith)

  pub lookup-erase :
      (gone read : ℕ) (entries : List (ℕ × V))
      → lookup read (erase gone entries) ≡ (if gone == read then none else lookup read entries)
  unfolding erase lookup
  lookup-erase gone read [] = ground arith
  lookup-erase gone read (entry ∷ rest) = ground (lookup-erase gone read rest, arith)

  pub lookup-keys : (k : ℕ) (m : List (ℕ × V)) → has (keys m) k ≡ false → lookup k m ≡ none
  unfolding lookup
  lookup-keys k [] h = refl
  lookup-keys k ((j, v) ∷ m) h = ground (arith, lookup-keys k m)

-- The set that an index holds under a key; none is the empty set.
abbrev pub members : ℕ → List (ℕ × List ℕ) → List ℕ
members k m = elim (lookup k m) [ none ↦ [] | some s ↦ s ]
