-- ===== src/RateLimit/Pruning.antt =====
-- src/utils/socket_rate_limit.js: the sweep changes no answer.
use mathlib.Core.Path.{ap₂}
use virgo_fleet.Base.{
  sym, ◌∙◌, ◌<◌, ℕ, ◌≤◌, ◌≡◌, refl, ◌⊎◌, inl, inr, false, List, [], ◌∷◌, Option, none, some, arith,
  leb, ◌==◌, has, keys, lookup, lookup-keys, Bool-cases,
}
use virgo_fleet.RateLimit.{Bucket, Buckets, Limits, prune, consume}
use virgo_fleet.RateLimit.Window.{answers, IsClosed, consume_open, consume_closed}

-- No key has two buckets, as in a `Map`.
abbrev pub Unique : Buckets → Type 0
Unique [] = Unit {0}
Unique ((key, b) ∷ rest) = (has (keys rest) key ≡ false) × Unique rest

abbrev pub AllFrom : ℕ → List ℕ → Type 0
AllFrom begin [] = Unit {0}
AllFrom begin (t ∷ ts) = (begin ≤ t) × AllFrom begin ts

-- Two limiters that differ for a key by a swept bucket at most.
abbrev Swept : ℕ → Option Bucket → Option Bucket → Type 0
Swept at a b = (a ≡ b) ⊎ ((a ≡ none) × IsClosed at b)

keys-prune :
    (at key : ℕ) (buckets : Buckets)
    → has (keys buckets) key ≡ false
    → has (keys (prune at buckets)) key ≡ false
unfolding prune
keys-prune at key [] h = refl
keys-prune at key ((k, b) ∷ rest) h = ground (arith, keys-prune at key rest)

prune-Swept :
    (at key : ℕ) (buckets : Buckets)
    → Unique buckets
    → Swept at (lookup key (prune at buckets)) (lookup key buckets)
unfolding prune lookup
prune-Swept at key [] u = inl refl
prune-Swept at key ((k, b) ∷ rest) u =
    let gone : (k ≡ key) → lookup key (prune at rest) ≡ none =
      λ e. lookup-keys key (prune at rest) (keys-prune at key rest (rw e at u.0)) in
    elim (Bool-cases (k == key)) [
      | inl hit ↦ elim (Bool-cases (leb b.expires_at at)) [
        | inl over ↦ inr (ground (arith, gone (ground arith)), ground arith)
        | inr live ↦ inl (ground arith)
      ]
      | inr miss ↦ elim (Bool-cases (leb b.expires_at at)) [
        | inl over ↦ rw (over, miss) (prune-Swept at key rest u.1)
        | inr live ↦ rw (live, miss) (prune-Swept at key rest u.1)
      ]
    ]

abbrev Open : ℕ → Option Bucket → Type 0
Open now o = (b : Bucket) × (o ≡ some b) × (now < b.expires_at)

Open-or_IsClosed : (now : ℕ) (o : Option Bucket) → IsClosed now o ⊎ Open now o
Open-or_IsClosed now none = inl tt
Open-or_IsClosed now (some b) = elim (Bool-cases (leb b.expires_at now)) [
  | inl over ↦ inl (ground arith)
  | inr live ↦ inr (b, refl, ground arith)
]

IsClosed-too : (at now : ℕ) (a b : Option Bucket) → Swept at a b → IsClosed now b → IsClosed now a
IsClosed-too at now a b (inl e) c = rw e c
IsClosed-too at now a b (inr (e, _)) c = rw e tt

Open-too :
    (at now : ℕ) (a b : Option Bucket) → at ≤ now → Swept at a b → (o : Open now b) → a ≡ some o.0
Open-too at now a b h (inl e) (x, f, g) = e ∙ f
Open-too at now a b h (inr (e, c)) (x, f, g) = absurd (omega (arith, rw f at c))

answers-Swept :
    (limits : Limits) (at key : ℕ) (times : List ℕ) (m n : Buckets)
    → AllFrom at times
    → Swept at (lookup key m) (lookup key n)
    → answers limits key times m ≡ answers limits key times n
unfolding answers
answers-Swept limits at key [] m n h s = refl
answers-Swept limits at key (now ∷ times) m n h s =
    let again =
      answers-Swept limits at key times (consume limits now key m).0 (consume limits now key n).0
        h.1 in
    elim (Open-or_IsClosed now (lookup key n)) [
      | inl c ↦
          let (a, e) = consume_closed limits now key n c in
          let (a', e') =
            consume_closed limits now key m (IsClosed-too at now _ (lookup key n) s c) in
          ap₂ ◌∷◌ (a' ∙ sym a) (again (inl (e' ∙ sym e)))
      | inr o ↦
          let (a, e) = consume_open limits now key n o.0 o.1 o.2 in
          let (a', e') =
            consume_open limits now key m o.0 (Open-too at now _ (lookup key n) h.0 s o) o.2 in
          ap₂ ◌∷◌ (a' ∙ sym a) (again (inl (e' ∙ sym e)))
    ]

-- A sweep is invisible: the attempts on a key at and after its time get the answers that they
-- would get without it.
pub answers-prune :
    (limits : Limits) (at key : ℕ) (times : List ℕ) (buckets : Buckets)
    → Unique buckets
    → AllFrom at times
    → answers limits key times (prune at buckets) ≡ answers limits key times buckets
answers-prune limits at key times buckets u h =
    answers-Swept limits at key times (prune at buckets) buckets h (prune-Swept at key buckets u)
