-- ===== src/Connectivity/Tests.antt =====
-- src/utils/connectivity.js: the theorem at a node that went off and on again.
use virgo_fleet.Base.{ℕ, ◌≡◌, refl, Bool, true, false, List, [], ◌∷◌, none, some, each, arith}
use virgo_fleet.Connectivity.{Event, place, sorted, seed_state, build_connectivity_segments}
use virgo_fleet.Connectivity.Timeline.{state_at}
use virgo_fleet.Connectivity.Moments.{is_recorded, transitions, build_connectivity_segments-state}
use virgo_fleet.Connectivity.Partition.{Divides, Alternates, build_connectivity_segments-Divides}

abbrev event : Bool → ℕ → Event
event online ts = record { online = online; ts = ts }

abbrev history : List Event
history = event true 150 ∷ event true 40 ∷ event false 120 ∷ event false 150 ∷ event true 150 ∷ []

build_connectivity_segments-Divides_example :
    Divides 100 200 (build_connectivity_segments 100 200 none history)
    × Alternates (build_connectivity_segments 100 200 none history)
build_connectivity_segments-Divides_example =
    build_connectivity_segments-Divides 100 200 none history (ground arith)

recorded : is_recorded (transitions 100 200 history) (some true) ≡ true
unfolding place sorted each
recorded = refl

build_connectivity_segments-state_example :
    state_at 130 (build_connectivity_segments 100 200 (some true) history)
    ≡ some (seed_state 130 (sorted history) none)
build_connectivity_segments-state_example =
    build_connectivity_segments-state 100 200 130 (some true) history (ground arith) (ground arith)
      recorded
