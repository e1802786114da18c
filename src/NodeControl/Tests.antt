-- ===== src/NodeControl/Tests.antt =====
-- Runs of the node module at concrete inputs: nodes 1 and 2 with the machines 11 and 12, seen by the
-- users 5 and 6, of whom 5 has the fleet open.
use virgo_fleet.Base.{
  ℕ, ◌+◌, Bool, true, false, not, ◌&&◌, none, some, List, [], ◌∷◌, ◌≡◌, refl, ◌==◌, leb,
  if◌then◌else◌, any, has, lookup, insert, erase, revise, arith,
}
use virgo_fleet.NodeControl.State.{
  Updates, UpdateKey, app_key, system_key, Row, Pool, degraded, Health, Job, JobState, Hub, World,
  boot, list_of,
}
use virgo_fleet.NodeControl.Peers.{initialize}
use virgo_fleet.NodeControl.Reports.{Number, clamp_percent, apply_app_update_job}
use virgo_fleet.NodeControl.Notifications.{
  includes, update_keys, stored_keys, watches, notify_updates_available, pool_states, changes,
  same_state, was,
}
use virgo_fleet.NodeControl.Events.{Admission, Report, Action, connects, reports, step}
use virgo_fleet.NodeControl.Steps.{IsInverse, step-IsInverse}
use virgo_fleet.NodeControl.Persistence.{IsPersisted}
use virgo_fleet.NodeControl.Restart.{step-IsPersisted}
use virgo_fleet.NodeControl.Restoring.{initialize_restores}
use virgo_fleet.NodeControl.Silence.{notify_updates_silent}
use virgo_fleet.NodeControl.Reach.{tellings, listed, notify_updates_exact}
use virgo_fleet.NodeControl.Transitions.{changes_exact, stood}

abbrev blank_row : Row
blank_row = record {
  machine_id = none;
  peers = [];
  update_signature = none;
  storage_signature = none;
}

abbrev fresh_rows : List (ℕ × Row)
fresh_rows = (1, blank_row) ∷ (2, blank_row) ∷ []

abbrev fresh : Hub
fresh = boot fresh_rows

abbrev world : World
world = record {
  members_of = λ _. some (5 ∷ 6 ∷ []);
  viewers = record { socket = 90; is_user = true; is_authenticated = true; user_id = 5 } ∷ [];
  is_connected = λ _. true;
}

abbrev apps_first : UpdateKey → UpdateKey → Bool
apps_first (app_key a) (app_key b) = leb a b
apps_first (app_key a) (system_key b v) = true
apps_first (system_key a v) (app_key b) = false
apps_first (system_key a v) (system_key b u) = leb a b

fresh-IsInverse : IsInverse fresh
unfolding lookup
fresh-IsInverse n m = ((λ h. cc h), (λ h. cc h))

fresh-IsPersisted : IsPersisted fresh
unfolding lookup
fresh-IsPersisted = record { machines = λ n. ground arith; peers = λ n. ground arith }

abbrev joins : ℕ → ℕ → ℕ → Action
joins node_id machine peer = reports node_id (Report.peers (some machine) (some (peer ∷ [])))

-- Node 1 names machine 11, and then node 2 names it too.
abbrev paired : Hub
paired = step apps_first world (joins 1 11 12) fresh

abbrev moved : Hub
moved = step apps_first world (joins 2 11 12) paired

machine_moves :
    (lookup 1 moved.machine_ids ≡ none)
    × (lookup 2 moved.machine_ids ≡ some 11)
    × (lookup 11 moved.node_ids ≡ some 2)
unfolding step lookup insert erase revise
machine_moves = (refl, refl, refl)

step-IsInverse_example : IsInverse moved
step-IsInverse_example =
    step-IsInverse apps_first world (joins 2 11 12) paired
      (step-IsInverse apps_first world (joins 1 11 12) fresh fresh-IsInverse)

paired-IsPersisted : IsPersisted paired
unfolding lookup
paired-IsPersisted =
    step-IsPersisted apps_first world (joins 1 11 12) fresh refl fresh-IsInverse fresh-IsPersisted

step-IsPersisted_example : IsPersisted paired
unfolding lookup
step-IsPersisted_example =
    step-IsPersisted apps_first world (joins 1 11 12) fresh refl fresh-IsInverse fresh-IsPersisted

initialize_restores_example :
    (lookup 1 (initialize (boot paired.rows)).machine_ids ≡ lookup 1 paired.machine_ids)
    × (lookup 11 (initialize (boot paired.rows)).node_ids ≡ lookup 11 paired.node_ids)
    × (list_of 1 (initialize (boot paired.rows)).peers ≡ list_of 1 paired.peers)
unfolding step lookup insert erase revise
initialize_restores_example =
    initialize_restores paired
      (step-IsInverse apps_first world (joins 1 11 12) fresh fresh-IsInverse) paired-IsPersisted
      (refl, (refl, tt)) 1 11

-- The socket 7 of node 1 comes, reports an update that waits, and goes.
abbrev arrived : Hub
arrived = step apps_first world (connects (Admission.as_node 1 false) 7) fresh

abbrev waiting : Updates
waiting = record { system = none; apps = some (3 ∷ []) }

notify_updates_silent_example :
    (notify_updates_available apps_first world 1 waiting
      (notify_updates_available apps_first world 1 waiting fresh)).log
    ≡ (notify_updates_available apps_first world 1 waiting fresh).log
unfolding lookup
notify_updates_silent_example = notify_updates_silent apps_first world 1 waiting fresh refl

-- Of the two members only 6, who is away, is told.
told_members :
    (tellings 5 (notify_updates_available apps_first world 1 waiting fresh).log ≡ 0)
    × (tellings 6 (notify_updates_available apps_first world 1 waiting fresh).log ≡ 1)
unfolding tellings notify_updates_available update_keys lookup revise
told_members = (refl, refl)

notify_updates_exact_example :
    tellings 6 (notify_updates_available apps_first world 1 waiting fresh).log
    ≡ tellings 6 fresh.log
      + (if any
              (λ key. not (includes (stored_keys 1 fresh.rows) key))
              (update_keys apps_first waiting (stored_keys 1 fresh.rows))
            && (not (any (watches 6) world.viewers) && has (listed world 1) 6)
          then 1
          else 0)
notify_updates_exact_example = notify_updates_exact apps_first world 1 waiting fresh 6

abbrev degraded_pool : Pool
degraded_pool = record { is_pool = true; name = 4; scan = none; health = some Health.is_degraded }

changes_exact_example :
    any
      (λ c. c.pool == 4 && same_state c.to degraded)
      (changes [] (pool_states (degraded_pool ∷ []) []))
    ≡ (was (lookup 4 (pool_states (degraded_pool ∷ []) [])) degraded
        && not (same_state (stood (lookup 4 [])) degraded))
unfolding pool_states insert
changes_exact_example = changes_exact [] (pool_states (degraded_pool ∷ []) []) 4 degraded (refl, tt)

-- A percent is rounded and kept within 0 to 100, and a finished job leaves the list.
shown_percent :
    (clamp_percent (Number.at 99 true) ≡ 100)
    × (clamp_percent (Number.at 250 false) ≡ 100)
    × (clamp_percent Number.negative ≡ 0)
unfolding clamp_percent
shown_percent = (refl, refl, refl)

abbrev job : JobState → Job
job state = record { id = 8; state = state; payload = 0 }

finished_job : apply_app_update_job (job JobState.ongoing ∷ []) (job JobState.completed) ≡ []
unfolding apply_app_update_job
finished_job = refl
