-- ===== src/Domains/Claiming.antt =====
-- services/domain_service.js: `claim` as a whole, on every branch.
use mathlib.Core.Path.{subst}
use virgo_fleet.Base.{
  ℕ, Bool, true, false, not, ◌&&◌, ◌||◌, Option, none, some, is_some, [], ◌∷◌, ◌++◌, ◌≡◌, refl, sym,
  ap, inl, inr, ◌==◌, ==_iff, Bool-cases, if_keeps, Option_keeps, lookup, ◌∙◌,
}
use virgo_fleet.Domains.Names.{
  Text, same_text, Identifier, normalize_label, is_on_zone, parse_identifier,
}
use virgo_fleet.Domains.State.{Cluster, Domains, World, Membership, find_cluster, get_membership}
use virgo_fleet.Domains.Claims.{
  is_available_name, is_available, zone_text, Request, Outcome, claimed, is_joined, refusal,
  claim_with, claim_name, claim_identifier, claim,
}
use virgo_fleet.Domains.Parsing.{Names, parse_identifier-Names, normalize_label-is_label}
use virgo_fleet.Domains.Ownership.{IsOwned}
use virgo_fleet.Domains.Joining.{
  IsTable, same_text_eq, same_text_refl, find-fqdn, membership-some, available_shares, left_found,
  joined-Owned, joining-Owned,
}

pub Text_keeps {ℓ κ} :
    {B : Type ℓ} (P : B → Type κ) (t : Text) (x y : B)
    → P x
    → P y
    → P (elim t as (λ _. B) [ [] ↦ x | c ∷ cs ↦ y ])
Text_keeps P [] x y p q = p
Text_keeps P (c ∷ cs) x y p q = q

-- What is not refused is available.
refusal-none :
    (w : World) (i : Identifier) (r : Request) (st : Domains)
    → refusal w i r st ≡ none
    → is_available_name (is_available w i.label (some r.node_id) st) ≡ true
unfolding refusal
refusal-none w i r st h =
    if_keeps Granted
      (not (is_available_name (is_available w i.label (some r.node_id) st))
        || (is_some (find_cluster i.fqdn st.clusters) && same_text i.node_fqdn i.fqdn))
      _ _ (λ _ q. cc q) (λ f _. granted _ _ f) h
  where
    Granted : Option Outcome → Type 0
    Granted o = o ≡ none → is_available_name (is_available w i.label (some r.node_id) st) ≡ true

    granted : (a b : Bool) → (not a || b) ≡ false → a ≡ true
    granted true b f = refl
    granted false b f = cc f

fqdn_in : Option Cluster → Text
fqdn_in none = []
fqdn_in (some c) = c.fqdn

no_zone :
    (hostname domain_name : Text) (i : Identifier)
    → parse_identifier none hostname domain_name ≡ some i
    → ⊥
unfolding parse_identifier
no_zone hostname domain_name i h = cc h

not_joined : (t : Text) → is_joined t none ≡ true → ⊥
unfolding is_joined
not_joined t h = cc h

module _ (w : World) (r : Request) (new_id : ℕ) (st : Domains) where
  -- A name that is not claimed leaves everything as it was.
  abbrev pub Unclaimed : Outcome → Type 0
  Unclaimed (claimed id) = ⊥
  Unclaimed _ = Unit

  abbrev Unchanged : Domains × Outcome → Type 0
  Unchanged result = Unclaimed result.1 → result.0 ≡ st

  claim_identifier-Unchanged : (i : Identifier) → Unchanged (claim_identifier w i r new_id st)
  unfolding claim_identifier claim_name claim_with
  claim_identifier-Unchanged i =
      if_keeps Unchanged (is_joined i.fqdn (get_membership r.node_id st)) _ _ (λ _ u. absurd u)
        (λ _. Option_keeps Unchanged (refusal w i r st) _ _ (λ _ u. absurd u) (λ _ _ _. refl))

  -- A claim that does not give the node a cluster, because no zone is configured, the domain is not on
  -- it, the host is not named, the name cannot be read, is reserved, or is taken, changes nothing.
  pub claim_unchanged : Unclaimed (claim w r new_id st).1 → (claim w r new_id st).0 ≡ st
  unfolding claim
  claim_unchanged =
      if_keeps Unchanged (not (is_on_zone w.zone r.domain_name)) _ _ (λ _ _. refl)
        (λ _.
          Text_keeps Unchanged (normalize_label r.hostname) _ _ (λ _. refl)
            (Option_keeps Unchanged (parse_identifier w.zone r.hostname r.domain_name) _ _
              (λ _ _. refl) (λ i _. claim_identifier-Unchanged i)))

-- The claim of an identifier whose name is that of its label under the zone.
module _ (w : World) (r : Request) (new_id : ℕ) (st : Domains) (o : IsOwned w st)
    (table : IsTable st.clusters) (fresh : lookup new_id st.clusters ≡ none) where
  Kept : Domains × Outcome → Type 0
  Kept result = IsOwned w result.0

  kept_result : (x : Domains × Outcome) → Kept x → IsOwned w x.0
  unfolding Kept
  kept_result x k = k

  kept_state : (outcome : Outcome) → Kept (st, outcome)
  unfolding Kept
  kept_state outcome = o

  -- The cluster that a member is in has another name, so another id.
  apart :
      (t : Text) (m : Membership) (e : ℕ × Cluster)
      → is_joined t (some m) ≡ false
      → lookup m.member.cluster_id st.clusters ≡ some m.cluster
      → find_cluster t st.clusters ≡ some e
      → (m.member.cluster_id == e.0) ≡ false
  unfolding is_joined fqdn_in
  apart t m e j own f = elim (Bool-cases (m.member.cluster_id == e.0)) [
    | inr q ↦ q
    | inl q ↦
        let one : some m.cluster ≡ some e.1 =
          sym own
          ∙ ap (λ k. lookup k st.clusters) ((==_iff m.member.cluster_id e.0).0 q)
          ∙ table.by_id t e f in
        let named : m.cluster.fqdn ≡ t = ap fqdn_in one ∙ find-fqdn t st.clusters e f in
        cc (sym (ap (λ x. same_text x t) named) ∙ j, same_text_refl t)
  ]

  stays :
      (i : Identifier) (m : Membership)
      → is_joined i.fqdn (some m) ≡ true
      → get_membership r.node_id st ≡ some m
      → Kept (claim_name w i r new_id st)
  unfolding Kept claim_name is_joined
  stays i m j e =
      let found : find_cluster i.fqdn st.clusters ≡ some (m.member.cluster_id, m.cluster) =
        subst (λ t. find_cluster t st.clusters ≡ some (m.member.cluster_id, m.cluster))
          (same_text_eq m.cluster.fqdn i.fqdn j)
          (table.by_name m.member.cluster_id m.cluster (membership-some r.node_id st m e).1) in
      rw (claim_name, e, found)
        (joined-Owned w i r new_id st o m (m.member.cluster_id, m.cluster) j
          (membership-some r.node_id st m e).0 (membership-some r.node_id st m e).1)

  joins :
      (i : Identifier)
      → normalize_label i.label ++ b'.' ∷ zone_text w.zone ≡ i.fqdn
      → is_joined i.fqdn (get_membership r.node_id st) ≡ false
      → is_available_name (is_available w i.label (some r.node_id) st) ≡ true
      → Kept (claim_name w i r new_id st)
  unfolding Kept claim_name
  joins i named j a =
      joining-Owned w i r new_id st o (get_membership r.node_id st)
        (find_cluster i.fqdn st.clusters) j fresh
        λ e f. (
          left_found r.node_id e.0 e.1 (get_membership r.node_id st) false st
              (λ m q.
                apart i.fqdn m e (ap (is_joined i.fqdn) (sym q) ∙ j)
                  (membership-some r.node_id st m q).1 f)
              (table.by_id i.fqdn e f),
          available_shares w i.label r.node_id st e a
              (ap (λ t. find_cluster t st.clusters) named ∙ f),
        )

  identifier-Kept :
      (i : Identifier)
      → normalize_label i.label ++ b'.' ∷ zone_text w.zone ≡ i.fqdn
      → Kept (claim_identifier w i r new_id st)
  unfolding claim_identifier
  identifier-Kept i named =
      if_keeps Kept (is_joined i.fqdn (get_membership r.node_id st)) (claim_name w i r new_id st) _
        (λ j. member i j (get_membership r.node_id st) refl)
        (λ j.
          Option_keeps Kept (refusal w i r st) (claim_name w i r new_id st) _
            (λ e. joins i named j (refusal-none w i r st e)) (λ outcome _. kept_state outcome))
    where
      member :
          (i : Identifier)
          → is_joined i.fqdn (get_membership r.node_id st) ≡ true
          → (mo : Option Membership) → get_membership r.node_id st ≡ mo
          → Kept (claim_name w i r new_id st)
      member i j none e = absurd (not_joined i.fqdn (sym (ap (is_joined i.fqdn) e) ∙ j))
      member i j (some m) e = stays i m (sym (ap (is_joined i.fqdn) e) ∙ j) e

  -- An identifier that was read has its name.
  read_name :
      (z : Option Text) (i : Identifier)
      → parse_identifier z r.hostname r.domain_name ≡ some i
      → normalize_label i.label ++ b'.' ∷ zone_text z ≡ i.fqdn
  read_name none i e = absurd (no_zone r.hostname r.domain_name i e)
  read_name (some zone) i e =
      let names : Names zone i = parse_identifier-Names zone r.hostname r.domain_name i e in
      ap (λ l. l ++ b'.' ∷ zone) (normalize_label-is_label i.label names.labelled) ∙ sym names.named

  -- After a claim, as before it: every member is in a cluster that is there and that the owner of its
  -- node owns, where ids and names of clusters are unique and a new cluster has a new id.
  pub claim-IsOwned : IsOwned w (claim w r new_id st).0
  unfolding claim
  claim-IsOwned =
      if_keeps Result (not (is_on_zone w.zone r.domain_name)) _ _ (λ _. o)
        (λ _. Text_keeps Result (normalize_label r.hostname) _ _ o (
          Option_keeps Result (parse_identifier w.zone r.hostname r.domain_name) _ _ (λ _. o)
            (λ i e.
              kept_result (claim_identifier w i r new_id st)
                (identifier-Kept i (read_name w.zone i e)))))
    where
      Result : Domains × Outcome → Type 0
      Result result = IsOwned w result.0
