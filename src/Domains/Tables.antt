-- ===== src/Domains/Tables.antt =====
-- services/domain_service.js: the table of clusters has each id and each name once, and stays so where
-- a cluster is saved, created under a new name, or deleted.
use virgo_fleet.Base.{
  ℕ, true, false, none, some, List, [], ◌∷◌, ◌≡◌, refl, sym, ap, ◌⊎◌, inl, inr, ◌==◌, ==_iff,
  ==_refl, Bool-cases, lookup, insert, erase, lookup-insert, lookup-erase, arith, ◌∙◌,
}
use virgo_fleet.Domains.Names.{Text, same_text}
use virgo_fleet.Domains.State.{Cluster, find_cluster}
use virgo_fleet.Domains.Joining.{IsTable, same_text_eq, same_text_refl}

unfoldable pub Table : List (ℕ × Cluster) → Type 0
Table [] = Unit
Table ((k, x) ∷ rest) = (lookup k rest ≡ none) × (find_cluster x.fqdn rest ≡ none) × Table rest

-- What may be saved under an id with a name: the cluster that is there, with its name, or a new one.
abbrev pub Fits : ℕ → Text → List (ℕ × Cluster) → Type 0
Fits id t cs =
    ((c : Cluster) × (lookup id cs ≡ some c) × (c.fqdn ≡ t))
    ⊎ ((lookup id cs ≡ none) × (find_cluster t cs ≡ none))

lookup-find :
    (id : ℕ) (c : Cluster) (cs : List (ℕ × Cluster))
    → lookup id cs ≡ some c
    → find_cluster c.fqdn cs ≡ none
    → ⊥
unfolding lookup find_cluster
lookup-find id c [] h f = ground (arith, h)
lookup-find id c ((k, x) ∷ cs) h f = elim (Bool-cases (k == id)) [
  | inl e ↦
      let own : x ≡ c = ground (arith, e, h) in
      let named : same_text x.fqdn c.fqdn ≡ true =
        ap (λ (y : Cluster). same_text y.fqdn c.fqdn) own ∙ same_text_refl c.fqdn in
      ground (arith, named, f)
  | inr e ↦ elim (Bool-cases (same_text x.fqdn c.fqdn)) [
    | inl q ↦ ground (arith, q, f)
    | inr q ↦ lookup-find id c cs (ground (arith, e, h)) (ground (arith, q, f))
  ]
]

find-insert :
    (t : Text) (id : ℕ) (c : Cluster) (cs : List (ℕ × Cluster))
    → find_cluster t cs ≡ none
    → same_text c.fqdn t ≡ false
    → find_cluster t (insert id c cs) ≡ none
unfolding find_cluster insert
find-insert t id c [] f d = ground (arith, d)
find-insert t id c ((k, x) ∷ cs) f d = elim (Bool-cases (same_text x.fqdn t)) [
  | inl q ↦ ground (arith, q, f)
  | inr q ↦ ground (arith, q, f, d, find-insert t id c cs)
]

find-erase :
    (t : Text) (id : ℕ) (cs : List (ℕ × Cluster))
    → find_cluster t cs ≡ none
    → find_cluster t (erase id cs) ≡ none
unfolding find_cluster erase
find-erase t id [] f = refl
find-erase t id ((k, x) ∷ cs) f = elim (Bool-cases (same_text x.fqdn t)) [
  | inl q ↦ ground (arith, q, f)
  | inr q ↦ ground (arith, q, f, find-erase t id cs)
]

-- Two rows of a table have different names.
other_name :
    (x c : Cluster) (id : ℕ) (cs : List (ℕ × Cluster))
    → find_cluster x.fqdn cs ≡ none
    → lookup id cs ≡ some c
    → same_text x.fqdn c.fqdn ≡ false
other_name x c id cs f h = elim (Bool-cases (same_text x.fqdn c.fqdn)) [
  | inl q ↦
      absurd (
        lookup-find id c cs h
          (ap (λ t. find_cluster t cs) (sym (same_text_eq x.fqdn c.fqdn q)) ∙ f))
  | inr q ↦ q
]

same_text_comm : (s t : Text) → same_text s t ≡ false → same_text t s ≡ false
same_text_comm s t h = elim (Bool-cases (same_text t s)) [
  | inl q ↦ cc (h, ap (same_text s) (same_text_eq t s q) ∙ same_text_refl s)
  | inr q ↦ q
]

-- The name of what is saved is not that of another row.
fitting_name :
    (k id : ℕ) (x c : Cluster) (cs : List (ℕ × Cluster))
    → (k == id) ≡ false
    → find_cluster x.fqdn cs ≡ none
    → Fits id c.fqdn ((k, x) ∷ cs)
    → (same_text c.fqdn x.fqdn ≡ false) × Fits id c.fqdn cs
unfolding lookup find_cluster
fitting_name k id x c cs e f (inl (d, h, own)) =
    let row : lookup id cs ≡ some d = ground (arith, e, h) in
    (
      same_text_comm x.fqdn c.fqdn (ap (same_text x.fqdn) (sym own) ∙ other_name x d id cs f row),
      inl (d, row, own),
    )
fitting_name k id x c cs e f (inr (h, g)) = elim (Bool-cases (same_text x.fqdn c.fqdn)) [
  | inl q ↦ ground (arith, q, g)
  | inr q ↦ (same_text_comm x.fqdn c.fqdn q, inr (ground (arith, e, h), ground (arith, q, g)))
]

pub Table-insert :
    (id : ℕ) (c : Cluster) (cs : List (ℕ × Cluster))
    → Table cs
    → Fits id c.fqdn cs
    → Table (insert id c cs)
unfolding Table insert lookup find_cluster
Table-insert id c [] t f = (refl, refl, tt)
Table-insert id c ((k, x) ∷ cs) t f = elim (Bool-cases (k == id)) [
  | inl e ↦ rw (e, insert) (ap (λ j. lookup j cs) (sym ((==_iff k id).0 e)) ∙ t.0, renamed e f, t.2)
  | inr e ↦
      let other = fitting_name k id x c cs e t.1 f in
      rw (e, insert)
        (
          ground (arith, e, t.0, lookup-insert id k c cs),
          find-insert x.fqdn id c cs t.1 other.0,
          Table-insert id c cs t.2 other.1,
        )
]
  where
    renamed : (k == id) ≡ true → Fits id c.fqdn ((k, x) ∷ cs) → find_cluster c.fqdn cs ≡ none
    renamed e (inl (d, h, own)) =
        let row : x ≡ d = ground (arith, e, h) in
        ap (λ u. find_cluster u cs) (sym own ∙ ap (λ (y : Cluster). y.fqdn) (sym row)) ∙ t.1
    renamed e (inr (h, g)) = absurd (ground (arith, e, h))

pub Table-erase : (id : ℕ) (cs : List (ℕ × Cluster)) → Table cs → Table (erase id cs)
unfolding Table erase
Table-erase id [] t = tt
Table-erase id ((k, x) ∷ cs) t = elim (Bool-cases (k == id)) [
  | inl e ↦ rw (e, erase) (Table-erase id cs t.2)
  | inr e ↦
      rw (e, erase)
        (
          ground (arith, t.0, lookup-erase id k cs),
          find-erase x.fqdn id cs t.1,
          Table-erase id cs t.2,
        )
]

-- The name of a deleted cluster is free.
freed_name :
    (id : ℕ) (c : Cluster) (cs : List (ℕ × Cluster))
    → Table cs
    → lookup id cs ≡ some c
    → find_cluster c.fqdn (erase id cs) ≡ none
unfolding Table lookup find_cluster erase
freed_name id c [] t h = refl
freed_name id c ((k, x) ∷ cs) t h = elim (Bool-cases (k == id)) [
  | inl e ↦
      let own : x ≡ c = ground (arith, e, h) in
      rw (e, erase)
        (find-erase c.fqdn id cs (ap (λ (y : Cluster). find_cluster y.fqdn cs) (sym own) ∙ t.1))
  | inr e ↦
      let row : lookup id cs ≡ some c = ground (arith, e, h) in
      rw (e, erase, other_name x c id cs t.1 row) (freed_name id c cs t.2 row)
]

pub Fits-erase :
    (id gone : ℕ) (u : Text) (cs : List (ℕ × Cluster))
    → Table cs
    → Fits id u cs
    → Fits id u (erase gone cs)
Fits-erase id gone u cs t (inr (h, g)) =
    inr (ground (arith, h, lookup-erase gone id cs), find-erase u gone cs g)
Fits-erase id gone u cs t (inl (c, h, own)) = elim (Bool-cases (gone == id)) [
  | inl e ↦ inr (
    ground (arith, e, lookup-erase gone id cs),
    ap (λ k. find_cluster u (erase k cs)) ((==_iff gone id).0 e)
        ∙ ap (λ v. find_cluster v (erase id cs)) (sym own)
        ∙ freed_name id c cs t h,
  )
  | inr e ↦ inl (c, ground (arith, e, h, lookup-erase gone id cs), own)
]

pub found_row :
    (u : Text) (e : ℕ × Cluster) (cs : List (ℕ × Cluster))
    → Table cs
    → find_cluster u cs ≡ some e
    → lookup e.0 cs ≡ some e.1
unfolding Table lookup find_cluster
found_row u e [] t f = ground (arith, f)
found_row u e ((k, x) ∷ cs) t f = elim (Bool-cases (same_text x.fqdn u)) [
  | inl q ↦ ground (arith, q, f, ==_refl k)
  | inr q ↦
      let row : lookup e.0 cs ≡ some e.1 = found_row u e cs t.2 (ground (arith, q, f)) in
      ground (arith, row, t.0)
]

named_row :
    (id : ℕ) (c : Cluster) (cs : List (ℕ × Cluster))
    → Table cs
    → lookup id cs ≡ some c
    → find_cluster c.fqdn cs ≡ some (id, c)
unfolding Table lookup find_cluster
named_row id c [] t h = ground (arith, h)
named_row id c ((k, x) ∷ cs) t h = elim (Bool-cases (k == id)) [
  | inl e ↦
      let own : x ≡ c = ground (arith, e, h) in
      let named : same_text x.fqdn c.fqdn ≡ true =
        ap (λ (y : Cluster). same_text y.fqdn c.fqdn) own ∙ same_text_refl c.fqdn in
      ground (arith, e, h, named, own)
  | inr e ↦
      let row : lookup id cs ≡ some c = ground (arith, e, h) in
      rw (other_name x c id cs t.1 row) (named_row id c cs t.2 row)
]

pub Table-IsTable : (cs : List (ℕ × Cluster)) → Table cs → IsTable cs
Table-IsTable cs t = record {
  by_id = λ u e f. found_row u e cs t f;
  by_name = λ id c h. named_row id c cs t h;
}
