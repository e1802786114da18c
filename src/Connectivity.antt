-- ===== src/Connectivity.antt =====
-- src/utils/connectivity.js: the online/offline timeline of a node for a window of time. Times are
-- numbers of milliseconds; an event's time is one, so none is filtered out as not finite.
pub mod Partition
pub mod Timeline
pub mod Moments
pub mod Tests
use virgo_fleet.Base.{
  ℕ, ◌+◌, Bool, true, false, not, ◌&&◌, List, [], ◌∷◌, ◌++◌, Option, none, some, leb, ltb,
  if◌then◌else◌, keep, each,
}

pub record Event : Type 0 where
  pub online : Bool
  pub ts : ℕ

-- `online` is none where nothing is known.
pub record Segment : Type 0 where
  pub online : Option Bool
  pub start_ms : ℕ
  pub end_ms : ℕ

abbrev pub segment : Option Bool → ℕ → ℕ → Segment
segment online start_ms end_ms = record { online = online; start_ms = start_ms; end_ms = end_ms }

-- `.sort((a, b) => a.ts - b.ts)`, which is stable.
unfoldable pub place : Event → List Event → List Event
place e [] = e ∷ []
place e (f ∷ es) = if ltb e.ts f.ts then e ∷ f ∷ es else f ∷ place e es

unfoldable pub sorted : List Event → List Event
sorted events = each place events []

-- `.filter(…).at(-1)`, and its state.
unfoldable pub seed_state : ℕ → List Event → Option Bool → Option Bool
seed_state window_start [] state = state
seed_state window_start (e ∷ es) state =
    seed_state window_start es (if leb e.ts window_start then some e.online else state)

abbrev pub is_in_window : ℕ → ℕ → Event → Bool
is_in_window window_start now e = ltb window_start e.ts && leb e.ts now

-- The loop over the transitions from a cursor and a state, and the last segment.
unfoldable pub walk : (now cursor : ℕ) → Option Bool → List Event → List Segment
walk now cursor state [] = if ltb cursor now then segment state cursor now ∷ [] else []
walk now cursor state (e ∷ es) =
    let rest = walk now (if ltb cursor e.ts then e.ts else cursor) (some e.online) es in
    if ltb cursor e.ts then segment state cursor e.ts ∷ rest else rest

abbrev pub same_state : Option Bool → Option Bool → Bool
same_state none none = true
same_state (some true) (some true) = true
same_state (some false) (some false) = true
same_state _ _ = false

-- One round of the `reduce`: a segment is pushed, or it prolongs the last one.
unfoldable pub merge : Segment → List Segment → List Segment
merge s [] = s ∷ []
merge s (p ∷ []) =
    if same_state p.online s.online then record p { end_ms = s.end_ms } ∷ [] else p ∷ s ∷ []
merge s (p ∷ q ∷ merged) = p ∷ merge s (q ∷ merged)

-- A steady window takes the node's live presence, where it is known.
unfoldable pub steady : Option Bool → Option Bool → Option Bool
steady none state = state
steady (some live) state = some live

unfoldable pub segments_of :
    (window_start now : ℕ) → Option Bool → Option Bool → List Event → List Segment
segments_of window_start now live state [] = walk now window_start (steady live state) []
segments_of window_start now live state (e ∷ es) = walk now window_start state (e ∷ es)

abbrev pub merge_all : List Segment → List Segment
merge_all segments = each merge segments []

timeline : (window_start now : ℕ) → Option Bool → List Event → List Segment
timeline window_start now live [] = segment none window_start now ∷ []
timeline window_start now live (e ∷ es) = merge_all (
    segments_of window_start now live (seed_state window_start (e ∷ es) none)
      (keep (is_in_window window_start now) (e ∷ es)))

-- `buildConnectivitySegments`
unfoldable pub build_connectivity_segments :
    (window_start now : ℕ) → (live_online : Option Bool) → List Event → List Segment
unfolding timeline
build_connectivity_segments window_start now live events =
    timeline window_start now live (sorted events)
