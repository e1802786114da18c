-- ===== src/Domains/Issuance.antt =====
-- services/domain_service.js: the weekly limit of `present`, and what `cleanup` does to it.
use mathlib.Core.List.{append-nil}
use virgo_fleet.Base.{
  ℕ, ◌+◌, ◌≤◌, Bool, true, false, not, List, [], ◌∷◌, ◌++◌, ◌≡◌, refl, inl, inr, ==_refl, leb,
  if◌then◌else◌, if_keeps, Bool-cases, length, length-append, keep, arith, ◌∙◌,
}
use virgo_fleet.Domains.Names.{Text}
use virgo_fleet.Domains.State.{Challenge, Domains, World, emit, txt_written}
use virgo_fleet.Domains.Joining.{same_text_refl}
use virgo_fleet.Domains.Challenges.{
  Answer, issuance_limit, Authorization, granted, denied, authorize, is_recent, count_recent,
  present_name, present, Refusal, is_presented, remove_challenges, cleanup,
}

keep-append {ℓ} :
    {A : Type ℓ} (p : A → Bool) (xs ys : List A) → keep p (xs ++ ys) ≡ keep p xs ++ keep p ys
keep-append p [] ys = refl
keep-append p (x ∷ xs) ys = elim (Bool-cases (p x)) [
  | inl e ↦ rw (e, keep-append p xs ys)
  | inr e ↦ rw (e, keep-append p xs ys)
]

both_longer :
    (c : Challenge) (xs ys : List Challenge) (b : Bool)
    → length xs ≤ length ys
    → length (if b then c ∷ xs else xs) ≤ length (if b then c ∷ ys else ys)
both_longer c xs ys true h = omega arith
both_longer c xs ys false h = h

one_longer :
    (c : Challenge) (xs ys : List Challenge) (b : Bool)
    → length xs ≤ length ys
    → length xs ≤ length (if b then c ∷ ys else ys)
one_longer c xs ys true h = omega arith
one_longer c xs ys false h = h

-- What is kept of a part is kept of the whole.
keep-le :
    (p q : Challenge → Bool) (cs : List Challenge)
    → length (keep p (keep q cs)) ≤ length (keep p cs)
keep-le p q [] = omega arith
keep-le p q (c ∷ cs) = elim (Bool-cases (q c)) [
  | inl e ↦ rw e (both_longer c (keep p (keep q cs)) (keep p cs) (p c) (keep-le p q cs))
  | inr e ↦ rw e (one_longer c (keep p (keep q cs)) (keep p cs) (p c) (keep-le p q cs))
]

not_full : (n : ℕ) → leb issuance_limit n ≡ false → n + 1 ≤ issuance_limit
not_full n e = ground (arith, e)

pub Authorization_keeps {ℓ κ} :
    {B : Type ℓ} (P : B → Type κ) (a : Authorization) (f : Text → B) (g : Refusal → B)
    → ((t : Text) → a ≡ granted t → P (f t))
    → ((r : Refusal) → P (g r))
    → P (elim a as (λ _. B) [ granted t ↦ f t | denied r ↦ g r ])
Authorization_keeps P (granted t) f g p q = p t refl
Authorization_keeps P (denied r) f g p q = q r

-- One challenge more is one more in the count at most.
count-append :
    (now node_id : ℕ) (cs : List Challenge) (c : Challenge)
    → count_recent now node_id (cs ++ c ∷ []) ≤ count_recent now node_id cs + 1
unfolding count_recent
count-append now node_id cs c =
    rw
      (
        keep-append (is_recent now node_id) cs (c ∷ []),
        length-append (keep (is_recent now node_id) cs) (keep (is_recent now node_id) (c ∷ [])),
      )
      (last (is_recent now node_id c))
  where
    last :
        (b : Bool)
        → length (keep (is_recent now node_id) cs) + length (if b then c ∷ [] else [])
          ≤ length (keep (is_recent now node_id) cs) + 1
    last true = omega arith
    last false = omega arith

-- The rows of a node that the weekly count takes in are at most twelve after a challenge is presented,
-- where they were before it, whether the challenge is granted or refused.
pub present-limit :
    (w : World) (now record_id node_id : ℕ) (name : Text) (value : ℕ) (st : Domains)
    → count_recent now node_id st.challenges ≤ issuance_limit
    → count_recent now node_id (present w now record_id node_id name value st).0.challenges
      ≤ issuance_limit
unfolding present present_name
present-limit w now record_id node_id name value st h =
    Authorization_keeps Within (authorize w node_id name st) _ _
      (λ t _.
        if_keeps Within (leb issuance_limit (count_recent now node_id st.challenges)) _ _ (λ _. h)
          (λ e. below t (not_full (count_recent now node_id st.challenges) e)))
      (λ _. h)
  where
    Within : Domains × Answer → Type 0
    Within result = count_recent now node_id result.0.challenges ≤ issuance_limit

    below :
        (t : Text)
        → count_recent now node_id st.challenges + 1 ≤ issuance_limit
        → count_recent now node_id (
            st.challenges
            ++ record {
              node_id = node_id;
              name = t;
              value = value;
              record_id = record_id;
              created_at = now;
            }
              ∷ [])
          ≤ issuance_limit
    below t full = omega (
      arith,
      count-append now node_id st.challenges (record {
        node_id = node_id;
        name = t;
        value = value;
        record_id = record_id;
        created_at = now;
      }),
      full,
    )

-- What `cleanup` leaves of the challenges once the name it is given was authorized.
cleaned-challenges :
    (w : World) (node_id : ℕ) (name t : Text) (value : ℕ) (st : Domains)
    → authorize w node_id name st ≡ granted t
    → (cleanup w node_id name value st).0.challenges
      ≡ keep (λ c. not (is_presented node_id t value c)) st.challenges
unfolding cleanup remove_challenges
cleaned-challenges w node_id name t value st a = rw (cleanup, a)

-- A challenge that is presented and cleaned up again, under a name that the node is authorized for,
-- leaves the weekly count at any time no higher than it was before.
pub cleanup-present :
    (w : World) (now later record_id node_id : ℕ) (name t : Text) (value : ℕ) (st : Domains)
    → authorize w node_id name st ≡ granted t
    → count_recent later node_id
        (cleanup w node_id name value
          (present w now record_id node_id name value st).0).0.challenges
      ≤ count_recent later node_id st.challenges
unfolding present present_name
cleanup-present w now later record_id node_id name t value st a =
    rw (present, a)
      (if_keeps Lower (leb issuance_limit (count_recent now node_id st.challenges)) _ _
        (λ _. rw (cleaned-challenges w node_id name t value st a) (kept st.challenges))
        (λ _.
          rw (cleaned-challenges w node_id name t value grown a, grown_cleaned)
            (kept st.challenges)))
  where
    Lower : Domains × Answer → Type 0
    Lower result =
        count_recent later node_id (cleanup w node_id name value result.0).0.challenges
        ≤ count_recent later node_id st.challenges

    kept :
        (cs : List Challenge)
        → count_recent later node_id (keep (λ c. not (is_presented node_id t value c)) cs)
          ≤ count_recent later node_id cs
    kept cs =
        unfold count_recent in
        keep-le (is_recent later node_id) (λ c. not (is_presented node_id t value c)) cs

    added : Challenge
    added = record {
      node_id = node_id;
      name = t;
      value = value;
      record_id = record_id;
      created_at = now;
    }

    grown : Domains
    grown = emit (txt_written t value) (record st { challenges = st.challenges ++ added ∷ [] })

    grown_cleaned :
        keep (λ c. not (is_presented node_id t value c)) (st.challenges ++ added ∷ [])
        ≡ keep (λ c. not (is_presented node_id t value c)) st.challenges
    grown_cleaned =
        keep-append (λ c. not (is_presented node_id t value c)) st.challenges (added ∷ [])
        ∙ rw (==_refl node_id, same_text_refl t, ==_refl value)
            (append-nil (keep (λ c. not (is_presented node_id t value c)) st.challenges))
