-- ===== src/Connectivity/Timeline.antt =====
-- src/utils/connectivity.js: what the segments of sorted events say of each moment.
use virgo_fleet.Base.{
  ℕ, ◌≡◌, refl, sym, ap, ◌∙◌, ◌<◌, ◌≤◌, Bool, true, false, List, [], ◌∷◌, ◌++◌, Option, none, some,
  arith, leb, ltb, if◌then◌else◌, if_keeps, each, All, Bool-cases, inl, inr,
}
use virgo_fleet.Connectivity.{Event, Segment, place, seed_state, walk, same_state, merge}
use virgo_fleet.Connectivity.Partition.{Divides, merge-Divides}

-- The state that the segments show at a time.
unfoldable pub state_at : ℕ → List Segment → Option (Option Bool)
state_at x [] = none
state_at x (s ∷ segments) = if ltb x s.end_ms then some s.online else state_at x segments

abbrev pub From : ℕ → Event → Type 0
From t e = t ≤ e.ts

abbrev pub After : ℕ → Event → Type 0
After t e = t < e.ts

abbrev pub IsSorted : List Event → Type 0
IsSorted [] = Unit {0}
IsSorted (e ∷ es) = All (From e.ts) es × IsSorted es

From-later : (a b : ℕ) (es : List Event) → a ≤ b → All (From b) es → All (From a) es
From-later a b [] h l = tt
From-later a b (e ∷ es) h (k, l) = (ground arith, From-later a b es h l)

pub After-later : (a b : ℕ) (es : List Event) → a < b → All (From b) es → All (After a) es
After-later a b [] h l = tt
After-later a b (e ∷ es) h (k, l) = (ground arith, After-later a b es h l)

placed-From :
    (t : ℕ) (e : Event) (es : List Event) → t ≤ e.ts → All (From t) es → All (From t) (place e es)
unfolding place
placed-From t e [] h l = (h, tt)
placed-From t e (f ∷ es) h (k, l) =
    if_keeps (All (From t)) (ltb e.ts f.ts) _ _ (λ _. (h, (k, l)))
      (λ _. (k, placed-From t e es h l))

pub place-IsSorted : (e : Event) (es : List Event) → IsSorted es → IsSorted (place e es)
unfolding place
place-IsSorted e [] s = (tt, tt)
place-IsSorted e (f ∷ es) (l, s) =
    if_keeps IsSorted (ltb e.ts f.ts) _ _
      (λ b. ((ground arith, From-later e.ts f.ts es (ground arith) l), (l, s)))
      (λ b. (placed-From f.ts e es (ground arith) l, place-IsSorted e es s))

-- Later events do not count.
pub seed_none :
    (x : ℕ) (es : List Event) (s : Option Bool) → All (After x) es → seed_state x es s ≡ s
unfolding seed_state
seed_none x [] s l = refl
seed_none x (e ∷ es) s (k, l) =
    let late : leb e.ts x ≡ false = ground arith in rw late (seed_none x es s l)

pub walk_at :
    (now x cursor : ℕ) (s : Option Bool) (es : List Event)
    → cursor ≤ x
    → x < now
    → All (From cursor) es
    → IsSorted es
    → state_at x (walk now cursor s es) ≡ some (seed_state x es s)
unfolding walk state_at seed_state
walk_at now x cursor s [] a b l o =
    let open_end : ltb cursor now ≡ true = ground arith in
    let inside : ltb x now ≡ true = ground arith in rw (open_end, inside) refl
walk_at now x cursor s (e ∷ es) a b (k, l) (m, o) = elim (Bool-cases (ltb cursor e.ts)) [
  | inl f ↦ elim (Bool-cases (ltb x e.ts)) [
    | inl g ↦
        let late : leb e.ts x ≡ false = ground arith in
        rw (f, g, late) (ap some (sym (seed_none x es s (After-later x e.ts es (ground arith) m))))
    | inr g ↦
        let early : leb e.ts x ≡ true = ground arith in
        rw (f, g, early) (walk_at now x e.ts (some e.online) es (ground arith) b m o)
  ]
  | inr f ↦
      let early : leb e.ts x ≡ true = ground arith in
      rw (f, early) (walk_at now x cursor (some e.online) es a b l o)
]

abbrev or_of : Option (Option Bool) → Option (Option Bool) → Option (Option Bool)
or_of none p = p
or_of (some s) p = some s

state_at-append :
    (x : ℕ) (l m : List Segment) → state_at x (l ++ m) ≡ or_of (state_at x l) (state_at x m)
unfolding state_at
state_at-append x [] m = refl
state_at-append x (s ∷ l) m = elim (Bool-cases (ltb x s.end_ms)) [
  | inl e ↦ rw e refl
  | inr e ↦ rw e (state_at-append x l m)
]

same_state-eq : (a b : Option Bool) → same_state a b ≡ true → a ≡ b
same_state-eq none none h = refl
same_state-eq none (some b) h = ground arith
same_state-eq (some true) none h = ground arith
same_state-eq (some false) none h = ground arith
same_state-eq (some true) (some true) h = refl
same_state-eq (some true) (some false) h = ground arith
same_state-eq (some false) (some true) h = ground arith
same_state-eq (some false) (some false) h = refl

-- Prolonging the last segment says the same as another one of its state.
merge_at :
    (x a b : ℕ) (s : Segment) (l : List Segment)
    → Divides a b l
    → s.start_ms ≡ b
    → s.start_ms < s.end_ms
    → state_at x (merge s l) ≡ state_at x (l ++ s ∷ [])
unfolding merge state_at
merge_at x a b s [] d e f = refl
merge_at x a b s (p ∷ []) (i, j, k) e f = elim (Bool-cases (same_state p.online s.online)) [
  | inl g ↦ rw g (joined (same_state-eq p.online s.online g))
  | inr g ↦ rw g refl
]
  where
    joined :
        p.online ≡ s.online
        → (if ltb x s.end_ms then some p.online else none) ≡ (
            if ltb x p.end_ms
            then some p.online
            else if ltb x s.end_ms
            then some s.online
            else none)
    joined q = elim (Bool-cases (ltb x p.end_ms)) [
      | inl u ↦ let v : ltb x s.end_ms ≡ true = ground arith in rw (u, v) refl
      | inr u ↦ rw (u, q) refl
    ]
merge_at x a b s (p ∷ q ∷ l) (i, j, k) e f = elim (Bool-cases (ltb x p.end_ms)) [
  | inl g ↦ rw g refl
  | inr g ↦ rw g (merge_at x p.end_ms b s (q ∷ l) k e f)
]

pub merged_at :
    (x a b c : ℕ) (segments merged : List Segment)
    → Divides a b merged
    → Divides b c segments
    → state_at x (each merge segments merged) ≡ or_of (state_at x merged) (state_at x segments)
unfolding each state_at
merged_at x a b c [] merged d e = ends (state_at x merged)
  where
    ends : (o : Option (Option Bool)) → o ≡ or_of o none
    ends none = refl
    ends (some s) = refl
merged_at x a b c (s ∷ segments) merged d (i, j, k) =
    merged_at x a s.end_ms c segments (merge s merged) (merge-Divides a b s merged d i j) k
    ∙ ap (λ o. or_of o (state_at x segments))
        (merge_at x a b s merged d i j ∙ state_at-append x merged (s ∷ []))
    ∙ again (state_at x merged)
  where
    again :
        (o : Option (Option Bool))
        → or_of (or_of o (if ltb x s.end_ms then some s.online else none)) (state_at x segments)
          ≡ or_of o (if ltb x s.end_ms then some s.online else state_at x segments)
    again none = elim (Bool-cases (ltb x s.end_ms)) [ inl e ↦ rw e refl | inr e ↦ rw e refl ]
    again (some t) = refl
