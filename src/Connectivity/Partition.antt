-- ===== src/Connectivity/Partition.antt =====
-- src/utils/connectivity.js: the segments divide the window.
use virgo_fleet.Base.{
  ℕ, ◌≡◌, refl, sym, ◌∙◌, ◌<◌, ◌≤◌, Bool, false, List, [], ◌∷◌, Option, none, some, arith, ltb,
  leb→le, ltb→lt, if_keeps, keep, each, each_inv, All, Bool-cases, inl, inr,
}
use virgo_fleet.Connectivity.{
  Event, Segment, sorted, seed_state, is_in_window, walk, same_state, merge, steady, segments_of,
  timeline, build_connectivity_segments,
}

-- The segments follow each other without a gap from the one time to the other, and none is empty.
abbrev pub Divides : ℕ → ℕ → List Segment → Type 0
Divides a b [] = a ≡ b
Divides a b (s ∷ segments) =
    (s.start_ms ≡ a) × (s.start_ms < s.end_ms) × Divides s.end_ms b segments

-- Neighbours differ in their state.
abbrev pub Alternates : List Segment → Type 0
Alternates [] = Unit
Alternates (s ∷ []) = Unit
Alternates (s ∷ t ∷ segments) = (same_state s.online t.online ≡ false) × Alternates (t ∷ segments)

abbrev pub IsBefore : ℕ → Event → Type 0
IsBefore now e = e.ts ≤ now

walk-Divides :
    (now cursor : ℕ) (state : Option Bool) (es : List Event)
    → cursor ≤ now
    → All (IsBefore now) es
    → Divides cursor now (walk now cursor state es)
unfolding walk
walk-Divides now cursor state [] h a =
    if_keeps (Divides cursor now) (ltb cursor now) _ _ (λ e. (refl, ltb→lt cursor now e, refl))
      (λ e. ground arith)
walk-Divides now cursor state (e ∷ es) h (b, a) = elim (Bool-cases (ltb cursor e.ts)) [
  | inl f ↦ rw f (refl, ltb→lt cursor e.ts f, walk-Divides now e.ts (some e.online) es b a)
  | inr f ↦ rw f (walk-Divides now cursor (some e.online) es h a)
]

pub merge-Divides :
    (a b : ℕ) (s : Segment) (l : List Segment)
    → Divides a b l
    → s.start_ms ≡ b
    → s.start_ms < s.end_ms
    → Divides a s.end_ms (merge s l)
unfolding merge
merge-Divides a b s [] d e f = (e ∙ sym d, f, refl)
merge-Divides a b s (p ∷ []) (x, y, z) e f =
    if_keeps (Divides a s.end_ms) (same_state p.online s.online) _ _ (λ _. (x, ground arith, refl))
      (λ _. (x, y, (e ∙ sym z, f, refl)))
merge-Divides a b s (p ∷ q ∷ l) (x, y, z) e f = (x, y, merge-Divides p.end_ms b s (q ∷ l) z e f)

merged-Divides :
    (a b c : ℕ) (segments merged : List Segment)
    → Divides a b merged
    → Divides b c segments
    → Divides a c (each merge segments merged)
unfolding each
merged-Divides a b c [] merged d e = rw (sym e) d
merged-Divides a b c (s ∷ segments) merged d (x, y, z) =
    merged-Divides a s.end_ms c segments (merge s merged) (merge-Divides a b s merged d x y) z

merge-Alternates : (s : Segment) (l : List Segment) → Alternates l → Alternates (merge s l)
unfolding merge
merge-Alternates s [] h = tt
merge-Alternates s (p ∷ []) h =
    if_keeps Alternates (same_state p.online s.online) _ _ (λ _. tt) (λ e. (e, tt))
merge-Alternates s (p ∷ q ∷ []) (e, h) =
    if_keeps (λ l. Alternates (p ∷ l)) (same_state q.online s.online) _ _ (λ _. (e, tt))
      (λ f. (e, (f, tt)))
merge-Alternates s (p ∷ q ∷ r ∷ l) (e, h) = (e, merge-Alternates s (q ∷ r ∷ l) h)

pub kept-IsBefore :
    (start now : ℕ) (es : List Event) → All (IsBefore now) (keep (is_in_window start now) es)
kept-IsBefore start now [] = tt
kept-IsBefore start now (e ∷ es) = elim (Bool-cases (is_in_window start now e)) [
  | inl f ↦ rw f (leb→le e.ts now (ground arith), kept-IsBefore start now es)
  | inr f ↦ rw f (kept-IsBefore start now es)
]

pub segments_of-Divides :
    (start now : ℕ) (live state : Option Bool) (es : List Event)
    → start ≤ now
    → All (IsBefore now) es
    → Divides start now (segments_of start now live state es)
unfolding segments_of
segments_of-Divides start now live state [] h a = walk-Divides now start (steady live state) [] h a
segments_of-Divides start now live state (e ∷ es) h a = walk-Divides now start state (e ∷ es) h a

timeline-Divides :
    (start now : ℕ) (live : Option Bool) (es : List Event)
    → start < now
    → Divides start now (timeline start now live es) × Alternates (timeline start now live es)
unfolding timeline
timeline-Divides start now live [] h = ((refl, h, refl), tt)
timeline-Divides start now live (e ∷ es) h = (
  merged-Divides start start now segments [] refl (
      segments_of-Divides start now live (seed_state start (e ∷ es) none)
        (keep (is_in_window start now) (e ∷ es)) (ground arith) (kept-IsBefore start now (e ∷ es))),
  each_inv Alternates merge merge-Alternates segments [] tt,
)
  where
    segments : List Segment
    segments =
        segments_of start now live (seed_state start (e ∷ es) none)
          (keep (is_in_window start now) (e ∷ es))

-- For a window that is not empty, the segments follow each other without a gap or an overlap from
-- its start to its end, none is empty, and neighbours differ in their state.
pub build_connectivity_segments-Divides :
    (start now : ℕ) (live : Option Bool) (events : List Event)
    → start < now
    → Divides start now (build_connectivity_segments start now live events)
      × Alternates (build_connectivity_segments start now live events)
unfolding build_connectivity_segments
build_connectivity_segments-Divides start now live events h =
    timeline-Divides start now live (sorted events) h
