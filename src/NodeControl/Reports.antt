-- ===== src/NodeControl/Reports.antt =====
-- modules/node/index.js: the reports of a node over its control socket, from `node:updates` to
-- `node:capabilities` (`node:peers` is in Peers), and the broadcast that follows each.
use virgo_fleet.Base.{
  ℕ, ◌+◌, Bool, true, false, not, ◌&&◌, Option, none, some, List, [], ◌∷◌, ◌++◌, ◌==◌, leb,
  if◌then◌else◌, keep, lookup, insert, erase,
}
use virgo_fleet.NodeControl.State.{
  Updates, Stage, Progress, succeeded, failed, running, running_at, JobState, Job, Pool, Ups,
  no_object, reading, nodes_updated, Hub, World, emit, list_of,
}

-- `#broadcastNodesUpdated`: an error of the query is only logged.
unfoldable pub broadcast_nodes_updated : World → ℕ → Hub → Hub
broadcast_nodes_updated w node_id st = elim (w.members_of node_id) [
  | none ↦ st
  | some user_ids ↦ emit (nodes_updated user_ids) st
]

-- A number that JavaScript parses: negative, or whole with a rest below or from a half.
pub data Number : Type 0 where
  negative : Number
  at : (whole : ℕ) (is_half : Bool) → Number

-- The state of a reported update. `other` is any other value, or no update at all.
pub data ReportedState : Type 0 where
  is_succeeded is_failed is_running other : ReportedState

-- `progress`: its stage where that is one of `UPDATE_STAGES`, its percent where that is finite.
pub record ReportedProgress : Type 0 where
  pub stage : Option Stage
  pub percent : Option Number

-- `Math.min(100, Math.max(0, Math.round(percent)))`
unfoldable pub clamp_percent : Number → ℕ
clamp_percent negative = 0
clamp_percent (at whole is_half) =
    let rounded = whole + (if is_half then 1 else 0) in if leb 100 rounded then 100 else rounded

unfoldable pub sanitize_running : Option ReportedProgress → Progress
unfolding clamp_percent
sanitize_running none = running
sanitize_running (some p) = elim p.stage [
  | none ↦ running
  | some stage ↦ elim p.percent [
    | none ↦ running
    | some percent ↦ running_at stage (clamp_percent percent)
  ]
]

unfoldable pub sanitize_update : ReportedState → Option ReportedProgress → Option Progress
unfolding sanitize_running
sanitize_update is_succeeded progress = some succeeded
sanitize_update is_failed progress = some failed
sanitize_update is_running progress = some (sanitize_running progress)
sanitize_update other progress = none

abbrev pub is_finished : JobState → Bool
is_finished JobState.completed = true
is_finished JobState.failed = true
is_finished JobState.ongoing = false

unfoldable pub apply_app_update_job : List Job → Job → List Job
apply_app_update_job jobs job =
    let remaining = keep (λ tracked. not (tracked.id == job.id)) jobs in
    if is_finished job.state then remaining else remaining ++ job ∷ []

-- What the node card draws of a UPS, which `#upsSignature` spells out.
pub data UpsSignature : Type 0 where
  text : ℕ → UpsSignature
  drawn : (error charge source charging capacity : ℕ) → UpsSignature

-- The text of `undefined`.
abbrev pub undefined : ℕ
undefined = 0

unfoldable pub ups_signature : Option Ups → UpsSignature
ups_signature none = text undefined
ups_signature (some (no_object t)) = text t
ups_signature (some (reading error charge source charging none)) =
    drawn error charge source charging 0
ups_signature (some (reading error charge source charging (some capacity))) =
    drawn error charge source charging (capacity.0 + (if capacity.1 then 1 else 0))

unfoldable pub same_signature : UpsSignature → UpsSignature → Bool
same_signature (text a) (text b) = a == b
same_signature (drawn e c s h p) (drawn e' c' s' h' p') =
    e == e' && c == c' && s == s' && h == h' && p == p'
same_signature _ _ = false

module _ (w : World) where
  -- `node:updates`, up to its broadcast.
  unfoldable pub report_updates : ℕ → Updates → Hub → Hub
  unfolding broadcast_nodes_updated
  report_updates node_id updates st =
      broadcast_nodes_updated w node_id (record st { updates = insert node_id updates st.updates })

  -- `node:update`
  unfoldable pub report_update : ℕ → ReportedState → Option ReportedProgress → Hub → Hub
  unfolding sanitize_update broadcast_nodes_updated
  report_update node_id state progress st =
      broadcast_nodes_updated w node_id (elim (sanitize_update state progress) [
        | none ↦ record st { update = erase node_id st.update }
        | some sanitized ↦ record st { update = insert node_id sanitized st.update }
      ])

  -- `node:app:update:job`; a job without an id is ignored.
  unfoldable pub report_app_update_job : ℕ → Option Job → Hub → Hub
  unfolding apply_app_update_job broadcast_nodes_updated
  report_app_update_job node_id none st = st
  report_app_update_job node_id (some job) st = broadcast_nodes_updated w node_id (record st {
    app_update_jobs =
        insert node_id (apply_app_update_job (list_of node_id st.app_update_jobs) job)
          st.app_update_jobs;
  })

  -- `node:storage`, up to its broadcast.
  unfoldable pub report_storage : ℕ → Option (List Pool) → Hub → Hub
  unfolding broadcast_nodes_updated
  report_storage node_id storage st =
      broadcast_nodes_updated w node_id (record st { storage = insert node_id storage st.storage })

  -- `node:ups`
  unfoldable pub report_ups : ℕ → Ups → Hub → Hub
  unfolding ups_signature same_signature broadcast_nodes_updated
  report_ups node_id ups st =
      let stored = record st { ups = insert node_id ups st.ups } in
      if same_signature (ups_signature (lookup node_id st.ups)) (ups_signature (some ups))
      then stored
      else broadcast_nodes_updated w node_id stored

  -- `node:capabilities`
  unfoldable pub report_capabilities : ℕ → Bool → Hub → Hub
  unfolding broadcast_nodes_updated
  report_capabilities node_id webrtc st =
      broadcast_nodes_updated w node_id
        (record st { capabilities = insert node_id webrtc st.capabilities })
