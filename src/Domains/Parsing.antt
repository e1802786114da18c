-- ===== src/Domains/Parsing.antt =====
-- services/domain_service.js: what `parseIdentifier` says of a name.
use mathlib.Core.Path.{subst}
use mathlib.Core.List.{reverse}
use mathlib.Core.List as L
use virgo_fleet.Base.{
  ℕ, true, false, ◌||◌, some, List, [], ◌∷◌, ◌++◌, map, ◌≡◌, refl, sym, ap, ◌⊎◌, inl, inr, ◌==◌,
  Bool-cases, Option-cases, arith, ◌∙◌,
}
use virgo_fleet.Domains.Names.{
  Text, is_blank, drop_blanks, trim, lower, normalize_label, strip_prefix, strip_zone,
  is_alphanumeric, is_label_tail, is_label, split_labels, are_labels, Identifier, identifier_of,
  identify, parse_identifier, normalize_name,
}

strip_prefix_lem : (p t rest : Text) → strip_prefix p t ≡ some rest → t ≡ p ++ rest
unfolding strip_prefix
strip_prefix_lem [] t rest h = ground arith
strip_prefix_lem (p ∷ ps) [] rest h = cc h
strip_prefix_lem (p ∷ ps) (c ∷ cs) rest h = elim (Bool-cases (p == c)) [
  | inl e ↦ ground (arith, e, h, strip_prefix_lem ps cs rest)
  | inr e ↦ ground (arith, e, h)
]

-- A name under the zone is what stands in front, a dot, and the zone.
strip_zone_lem : (zone t front : Text) → strip_zone zone t ≡ some front → t ≡ front ++ b'.' ∷ zone
unfolding strip_zone
strip_zone_lem zone t front h =
    elim (Option-cases (strip_prefix (reverse (b'.' ∷ zone)) (reverse t))) [
      | inl e ↦ ground (arith, e, h)
      | inr (back, e) ↦
          let own : reverse back ≡ front = ground (arith, e, h) in
          sym (L.reverse-reverse t)
          ∙ ap reverse (strip_prefix_lem (reverse (b'.' ∷ zone)) (reverse t) back e)
          ∙ L.reverse-append (reverse (b'.' ∷ zone)) back
          ∙ rw (own, L.reverse-reverse (b'.' ∷ zone))
    ]

-- A label has no blank and no capital.
lower-label : (c : ℕ) → (is_alphanumeric c || c == b'-') ≡ true → lower c ≡ c
unfolding lower
lower-label c h = ground arith

visible-label : (c : ℕ) → (is_alphanumeric c || c == b'-') ≡ true → is_blank c ≡ false
visible-label c h = ground arith

-- Every character of a label.
Plain : Text → Type 0
Plain [] = Unit
Plain (c ∷ cs) = ((is_alphanumeric c || c == b'-') ≡ true) × Plain cs

Plain-append : (s t : Text) → Plain s → Plain t → Plain (s ++ t)
unfolding Plain
Plain-append [] t p q = q
Plain-append (c ∷ cs) t p q = (p.0, Plain-append cs t p.1 q)

Plain-reverse : (t : Text) → Plain t → Plain (reverse t)
unfolding Plain
Plain-reverse [] p = p
Plain-reverse (c ∷ cs) p =
    rw (L.reverse-append (c ∷ []) cs)
      (Plain-append (reverse cs) (c ∷ []) (Plain-reverse cs p.1) (p.0, tt))

drop_blanks-Plain : (t : Text) → Plain t → drop_blanks t ≡ t
unfolding drop_blanks Plain
drop_blanks-Plain [] p = refl
drop_blanks-Plain (c ∷ cs) p = rw (visible-label c p.0)

map-lower-Plain : (t : Text) → Plain t → map lower t ≡ t
unfolding Plain
map-lower-Plain [] p = refl
map-lower-Plain (c ∷ cs) p = rw (lower-label c p.0, map-lower-Plain cs p.1)

normalize_label-Plain : (t : Text) → Plain t → normalize_label t ≡ t
unfolding normalize_label trim
normalize_label-Plain t p =
    rw
      (
        drop_blanks-Plain t p,
        drop_blanks-Plain (reverse t) (Plain-reverse t p),
        L.reverse-reverse t,
      )
      (map-lower-Plain t p)

is_label_tail-Plain : (t : Text) → is_label_tail t ≡ true → Plain t
unfolding is_label_tail Plain
is_label_tail-Plain [] h = tt
is_label_tail-Plain (c ∷ []) h = (ground (arith, h), tt)
is_label_tail-Plain (c ∷ d ∷ ds) h =
    (ground (arith, h), is_label_tail-Plain (d ∷ ds) (ground (arith, h)))

is_label-Plain : (t : Text) → is_label t ≡ true → Plain t
unfolding is_label Plain
is_label-Plain [] h = tt
is_label-Plain (c ∷ cs) h = (ground (arith, h), is_label_tail-Plain cs (ground (arith, h)))

split-cases : (t : Text) → (x : Text) × (xs : List Text) × (split_labels t ≡ x ∷ xs)
unfolding split_labels
split-cases [] = ([], [], refl)
split-cases (c ∷ cs) = elim (Bool-cases (c == b'.')) [
  | inl e ↦ ([], split_labels cs, rw e)
  | inr e ↦ let (x, xs, f) = split-cases cs in (c ∷ x, xs, rw (e, f))
]

split_single : (t l : Text) → split_labels t ≡ l ∷ [] → t ≡ l
unfolding split_labels
split_single [] l h = ground (arith, h)
split_single (c ∷ cs) l h =
    let (x, xs, f) = split-cases cs in
    elim (Bool-cases (c == b'.')) [
      | inl e ↦ ground (arith, e, f, h)
      | inr e ↦ ground (arith, e, f, h, split_single cs x)
    ]

split_pair : (t h l : Text) → split_labels t ≡ h ∷ l ∷ [] → t ≡ h ++ b'.' ∷ l
unfolding split_labels
split_pair [] h l e = ground (arith, e)
split_pair (c ∷ cs) h l e =
    let (x, xs, f) = split-cases cs in
    elim (Bool-cases (c == b'.')) [
      | inl q ↦ ground (arith, q, f, e, split_single cs l)
      | inr q ↦ ground (arith, q, f, e, split_pair cs x l)
    ]

-- What an identifier says: its label is a label, the cluster's name is the label under the zone, and
-- the node's name is the cluster's, or one more label in front of it.
pub record Names (zone : Text) (i : Identifier) : Type 0 where
  pub labelled : is_label i.label ≡ true
  pub named : i.fqdn ≡ i.label ++ b'.' ∷ zone
  pub placed :
      (i.node_fqdn ≡ i.fqdn)
      ⊎ ((host : Text) × (is_label host ≡ true) × (i.node_fqdn ≡ host ++ b'.' ∷ i.fqdn))

some_injective : (i j : Identifier) → some i ≡ some j → i ≡ j
some_injective i j h = ground (arith, h)

identifier_of-Names :
    (zone t front : Text) (ls : List Text) (i : Identifier)
    → t ≡ front ++ b'.' ∷ zone
    → split_labels front ≡ ls
    → are_labels ls ≡ true
    → identifier_of zone t ls ≡ some i
    → Names zone i
unfolding identifier_of are_labels
identifier_of-Names zone t front [] i e s h p = cc p
identifier_of-Names zone t front (l ∷ []) i e s h p =
    subst (Names zone) (some_injective _ i p) (record {
      labelled = ground (arith, h);
      named = e ∙ ap (λ x. x ++ b'.' ∷ zone) (split_single front l s);
      placed = inl refl;
    })
identifier_of-Names zone t front (a ∷ l ∷ []) i e s h p =
    subst (Names zone) (some_injective _ i p) (record {
      labelled = ground (arith, h);
      named = refl;
      placed = inr (
        a,
        ground (arith, h),
        e
            ∙ ap (λ x. x ++ b'.' ∷ zone) (split_pair front a l s)
            ∙ L.append_assoc a (b'.' ∷ l) (b'.' ∷ zone),
      );
    })
identifier_of-Names zone t front (a ∷ b ∷ c ∷ ls) i e s h p = cc p

-- An identifier that a host and a domain name under the zone are read as says what `Names` lists, and
-- its label is its own normal form.
pub parse_identifier-Names :
    (zone hostname domain_name : Text) (i : Identifier)
    → parse_identifier (some zone) hostname domain_name ≡ some i
    → Names zone i
unfolding parse_identifier identify
parse_identifier-Names zone hostname domain_name i p =
    elim (Option-cases (strip_zone zone (normalize_name (hostname ++ b'.' ∷ domain_name)))) [
      | inl e ↦ ground (arith, e, p)
      | inr (front, e) ↦ elim (Bool-cases (are_labels (split_labels front))) [
        | inl h ↦
            identifier_of-Names zone (normalize_name (hostname ++ b'.' ∷ domain_name)) front
              (split_labels front) i (strip_zone_lem zone _ front e) refl h
              (ground (arith, e, h, p))
        | inr h ↦ ground (arith, e, h, p)
      ]
    ]

pub normalize_label-is_label : (t : Text) → is_label t ≡ true → normalize_label t ≡ t
normalize_label-is_label t h = normalize_label-Plain t (is_label-Plain t h)
