-- ===== src/Connectivity/Moments.antt =====
-- src/utils/connectivity.js: what the timeline says of each moment of the window.
use virgo_fleet.Base.{
  ℕ, ◌≡◌, refl, ap, ◌∙◌, ◌<◌, ◌≤◌, Bool, true, false, List, [], ◌∷◌, Option, none, some, arith, leb,
  ltb, if_keeps, keep, each_inv, All, Bool-cases, inl, inr,
}
use virgo_fleet.Connectivity.{
  Event, Segment, place, sorted, seed_state, is_in_window, steady, segments_of, timeline,
  build_connectivity_segments,
}
use virgo_fleet.Connectivity.Partition.{segments_of-Divides, kept-IsBefore}
use virgo_fleet.Connectivity.Timeline.{
  state_at, From, After, IsSorted, After-later, place-IsSorted, seed_none, walk_at, merged_at,
}

-- Only the events of the window count beside the state that it opens with.
later_kept :
    (start now x : ℕ) (es : List Event) (s : Option Bool)
    → x < now
    → All (After start) es
    → seed_state x (keep (is_in_window start now) es) s ≡ seed_state x es s
unfolding seed_state
later_kept start now x [] s b l = refl
later_kept start now x (e ∷ es) s b (k, l) = elim (Bool-cases (leb e.ts now)) [
  | inl f ↦
      let within : is_in_window start now e ≡ true = ground arith in
      rw within (later_kept start now x es _ b l)
  | inr f ↦
      let outside : is_in_window start now e ≡ false = ground arith in
      let late : leb e.ts x ≡ false = ground arith in
      rw (outside, late) (later_kept start now x es s b l)
]

window_state :
    (start now x : ℕ) (es : List Event) (s : Option Bool)
    → start ≤ x
    → x < now
    → IsSorted es
    → seed_state x (keep (is_in_window start now) es) (seed_state start es s) ≡ seed_state x es s
unfolding seed_state
window_state start now x [] s a b o = refl
window_state start now x (e ∷ es) s a b (l, o) = elim (Bool-cases (leb e.ts start)) [
  | inl f ↦
      let outside : is_in_window start now e ≡ false = ground arith in
      let early : leb e.ts x ≡ true = ground arith in
      rw (f, outside, early) (window_state start now x es (some e.online) a b o)
  | inr f ↦
      rw (f, seed_none start es s (After-later start e.ts es (ground arith) l))
        (later_kept start now x (e ∷ es) s b
          (ground arith, After-later start e.ts es (ground arith) l))
]

kept-All : (t : ℕ) (p : Event → Bool) (es : List Event) → All (From t) es → All (From t) (keep p es)
kept-All t p [] l = tt
kept-All t p (e ∷ es) (k, l) =
    if_keeps (All (From t)) (p e) _ _ (λ _. (k, kept-All t p es l)) (λ _. kept-All t p es l)

keep-IsSorted : (p : Event → Bool) (es : List Event) → IsSorted es → IsSorted (keep p es)
keep-IsSorted p [] o = tt
keep-IsSorted p (e ∷ es) (l, o) =
    if_keeps IsSorted (p e) _ _ (λ _. (kept-All e.ts p es l, keep-IsSorted p es o))
      (λ _. keep-IsSorted p es o)

window-From :
    (start now : ℕ) (es : List Event) → All (From start) (keep (is_in_window start now) es)
window-From start now [] = tt
window-From start now (e ∷ es) =
    if_keeps (All (From start)) (is_in_window start now e) _ _
      (λ h. (ground arith, window-From start now es)) (λ _. window-From start now es)

-- A transition is recorded in the window, or nothing is known of the node's live presence.
abbrev pub is_recorded : List Event → Option Bool → Bool
is_recorded [] none = true
is_recorded [] (some live) = false
is_recorded (e ∷ es) live = true

segments_of_at :
    (start now x : ℕ) (live s : Option Bool) (es : List Event)
    → start ≤ x
    → x < now
    → All (From start) es
    → IsSorted es
    → is_recorded es live ≡ true
    → state_at x (segments_of start now live s es) ≡ some (seed_state x es s)
unfolding segments_of steady
segments_of_at start now x none s [] a b l o r = walk_at now x start s [] a b l o
segments_of_at start now x (some live) s [] a b l o r = ground arith
segments_of_at start now x live s (e ∷ es) a b l o r = walk_at now x start s (e ∷ es) a b l o

abbrev pub transitions : ℕ → ℕ → List Event → List Event
transitions start now events = keep (is_in_window start now) (sorted events)

timeline_at :
    (start now x : ℕ) (live : Option Bool) (es : List Event)
    → start ≤ x
    → x < now
    → IsSorted es
    → is_recorded (keep (is_in_window start now) es) live ≡ true
    → state_at x (timeline start now live es) ≡ some (seed_state x es none)
unfolding timeline state_at seed_state
timeline_at start now x live [] a b o r =
    let inside : ltb x now ≡ true = ground arith in rw inside refl
timeline_at start now x live (e ∷ es) a b o r =
    merged_at x start start now segments [] refl (
      segments_of-Divides start now live s (keep (is_in_window start now) (e ∷ es)) (ground arith)
        (kept-IsBefore start now (e ∷ es)))
    ∙ segments_of_at start now x live s (keep (is_in_window start now) (e ∷ es)) a b
        (window-From start now (e ∷ es)) (keep-IsSorted (is_in_window start now) (e ∷ es) o) r
    ∙ ap some (window_state start now x (e ∷ es) none a b o)
  where
    s : Option Bool
    s = seed_state start (e ∷ es) none

    segments : List Segment
    segments = segments_of start now live s (keep (is_in_window start now) (e ∷ es))

sorted-IsSorted : (events : List Event) → IsSorted (sorted events)
unfolding sorted
sorted-IsSorted events = each_inv IsSorted place place-IsSorted events [] tt

-- At every moment of the window, where a transition is recorded in it or the live presence is not
-- known, the segments show the state of the last event up to that moment, the recorded order
-- deciding between events of one time; they show that nothing is known where there is none.
pub build_connectivity_segments-state :
    (start now x : ℕ) (live : Option Bool) (events : List Event)
    → start ≤ x
    → x < now
    → is_recorded (transitions start now events) live ≡ true
    → state_at x (build_connectivity_segments start now live events)
      ≡ some (seed_state x (sorted events) none)
unfolding build_connectivity_segments
build_connectivity_segments-state start now x live events a b r =
    timeline_at start now x live (sorted events) a b (sorted-IsSorted events) r
