-- ===== src/NodeControl/Notifications.antt =====
-- modules/node/index.js: `#updateKeys`, `#membersAway`, `#notifyUpdatesAvailable`, `#poolState` and
-- `#notifyStorageHealth`, with the signatures that services/data_service.js stores.
use virgo_fleet.Base.{
  ℕ, Bool, true, false, not, ◌&&◌, ◌||◌, Option, none, some, List, [], ◌∷◌, ◌++◌, ◌==◌,
  if◌then◌else◌, length, keep, any, lookup, insert, revise,
}
use virgo_fleet.NodeControl.State.{
  Updates, UpdateKey, app_key, system_key, key_list, older_shape, PoolState, online, degraded,
  faulted, rebuilding, Health, is_online, is_degraded, is_other, Scan, Pool, Change, Row, Viewer,
  update_push, storage_push, Hub, World, emit,
}

abbrev pub same_key : UpdateKey → UpdateKey → Bool
same_key (app_key a) (app_key b) = a == b
same_key (system_key a v) (system_key b u) = a == b && v == u
same_key _ _ = false

-- `previous.includes(key)`
abbrev pub includes : List UpdateKey → UpdateKey → Bool
includes [] key = false
includes (k ∷ ks) key = same_key k key || includes ks key

-- `key.startsWith('app:')` and `key.startsWith('system:')`
abbrev pub is_app : UpdateKey → Bool
is_app (app_key a) = true
is_app (system_key a v) = false

abbrev pub system_keys : List (ℕ × ℕ) → List UpdateKey
system_keys [] = []
system_keys ((name, version) ∷ rest) = system_key name version ∷ system_keys rest

abbrev pub app_keys : List ℕ → List UpdateKey
app_keys [] = []
app_keys (name ∷ rest) = app_key name ∷ app_keys rest

-- A side that the node does not know keeps what was last known of it.
abbrev pub system_side : Option (List (ℕ × ℕ)) → List UpdateKey → List UpdateKey
system_side none previous = keep (λ k. not (is_app k)) previous
system_side (some system) previous = system_keys system

abbrev pub app_side : Option (List ℕ) → List UpdateKey → List UpdateKey
app_side none previous = keep is_app previous
app_side (some apps) previous = app_keys apps

-- `sort()` of a list of texts, of which `before` is the order.
module _ (before : UpdateKey → UpdateKey → Bool) where
  unfoldable pub place : UpdateKey → List UpdateKey → List UpdateKey
  place k [] = k ∷ []
  place k (j ∷ js) = if before j k then j ∷ place k js else k ∷ j ∷ js

  unfoldable pub sorted : List UpdateKey → List UpdateKey
  unfolding place
  sorted [] = []
  sorted (k ∷ ks) = place k (sorted ks)

  unfoldable pub update_keys : Updates → List UpdateKey → List UpdateKey
  unfolding sorted
  update_keys updates previous =
      sorted (system_side updates.system previous ++ app_side updates.apps previous)

-- `getNodeUpdateSignature` parsed; nothing stored, or an older shape, is an empty list.
unfoldable pub stored_keys : ℕ → List (ℕ × Row) → List UpdateKey
stored_keys node_id rows = elim (lookup node_id rows) [
  | none ↦ []
  | some row ↦ elim row.update_signature [
    | none ↦ []
    | some stored ↦ elim stored [ key_list keys ↦ keys | older_shape ↦ [] ]
  ]
]

unfoldable pub set_node_update_signature : ℕ → List UpdateKey → List (ℕ × Row) → List (ℕ × Row)
set_node_update_signature node_id keys =
    revise
      λ k row. if k == node_id then record row { update_signature = some (key_list keys) } else row

unfoldable pub get_node_storage_signature : ℕ → List (ℕ × Row) → Option (List (ℕ × PoolState))
get_node_storage_signature node_id rows = elim (lookup node_id rows) [
  | none ↦ none
  | some row ↦ row.storage_signature
]

unfoldable pub set_node_storage_signature :
    ℕ → List (ℕ × PoolState) → List (ℕ × Row) → List (ℕ × Row)
set_node_storage_signature node_id states =
    revise λ k row. if k == node_id then record row { storage_signature = some states } else row

abbrev pub watches : ℕ → Viewer → Bool
watches user_id v = v.is_user && v.is_authenticated && v.user_id == user_id

unfoldable pub members_away : List Viewer → List ℕ → List ℕ
members_away viewers user_ids = keep (λ user_id. not (any (watches user_id) viewers)) user_ids

-- `Array.isArray(list) ? list.length : 0`
abbrev pub count {ℓ} : {A : Type ℓ} → Option (List A) → ℕ
count none = 0
count (some xs) = length xs

unfoldable pub push_updates : World → ℕ → Updates → Hub → Hub
unfolding members_away
push_updates w node_id updates st = elim (w.members_of node_id) [
  | none ↦ st
  | some user_ids ↦ elim (members_away w.viewers user_ids) [
    | [] ↦ st
    | u ∷ us ↦ emit (update_push (u ∷ us) node_id (count updates.system) (count updates.apps)) st
  ]
]

module _ (before : UpdateKey → UpdateKey → Bool) (w : World) where
  unfoldable pub notify_updates_available : ℕ → Updates → Hub → Hub
  unfolding push_updates set_node_update_signature stored_keys
  notify_updates_available node_id updates st =
      let previous = stored_keys node_id st.rows in
      let current = update_keys before updates previous in
      let stored = record st { rows = set_node_update_signature node_id current st.rows } in
      if any (λ key. not (includes previous key)) current
      then push_updates w node_id updates stored
      else stored

abbrev pub is_rebuilding : Option Scan → Bool
is_rebuilding none = false
is_rebuilding (some scan) = scan.is_resilver && not scan.is_finished

abbrev pub health_state : Option Health → PoolState
health_state none = online
health_state (some is_online) = online
health_state (some is_degraded) = degraded
health_state (some is_other) = faulted

unfoldable pub pool_state : Pool → PoolState
pool_state pool = if is_rebuilding pool.scan then rebuilding else health_state pool.health

-- The states by pool name, as `current`; a name that comes twice keeps its last state.
unfoldable pub pool_states : List Pool → List (ℕ × PoolState) → List (ℕ × PoolState)
unfolding pool_state
pool_states [] current = current
pool_states (pool ∷ pools) current =
    pool_states pools (if pool.is_pool then insert pool.name (pool_state pool) current else current)

abbrev pub same_state : PoolState → PoolState → Bool
same_state online online = true
same_state degraded degraded = true
same_state faulted faulted = true
same_state rebuilding rebuilding = true
same_state _ _ = false

abbrev pub is_healthy : Option PoolState → Bool
is_healthy none = true
is_healthy (some online) = true
is_healthy (some _) = false

abbrev pub was : Option PoolState → PoolState → Bool
was none state = false
was (some before) state = same_state before state

-- Whether a pool's new state is worth a push.
unfoldable pub is_news : Option PoolState → PoolState → Bool
is_news before state = not (was before state) && not (same_state state online && is_healthy before)

unfoldable pub changes : List (ℕ × PoolState) → List (ℕ × PoolState) → List Change
unfolding is_news
changes previous [] = []
changes previous ((pool, state) ∷ rest) =
    let before = lookup pool previous in
    let others = changes previous rest in
    if is_news before state
    then record { pool = pool; from = before; to = state } ∷ others
    else others

-- The signatures are texts of the lists sorted by name: they agree where every name has one state.
unfoldable pub covers : List (ℕ × PoolState) → List (ℕ × PoolState) → Bool
covers xs [] = true
covers xs ((pool, state) ∷ rest) = was (lookup pool xs) state && covers xs rest

unfoldable pub same_states : List (ℕ × PoolState) → List (ℕ × PoolState) → Bool
unfolding covers
same_states xs ys = covers xs ys && covers ys xs

unfoldable pub is_stored : List (ℕ × PoolState) → Option (List (ℕ × PoolState)) → Bool
unfolding same_states
is_stored current none = false
is_stored current (some previous) = same_states current previous

abbrev pub recorded : Option (List (ℕ × PoolState)) → List (ℕ × PoolState)
recorded none = []
recorded (some states) = states

abbrev pub reported_pools : Option (List Pool) → List Pool
reported_pools none = []
reported_pools (some pools) = pools

unfoldable pub push_changes : World → ℕ → List Change → Hub → Hub
push_changes w node_id [] st = st
push_changes w node_id (c ∷ cs) st = elim (w.members_of node_id) [
  | none ↦ st
  | some user_ids ↦ emit (storage_push user_ids node_id (c ∷ cs)) st
]

unfoldable pub notify_storage_health : World → ℕ → Option (List Pool) → Hub → Hub
unfolding push_changes is_stored pool_states get_node_storage_signature set_node_storage_signature
notify_storage_health w node_id storage st =
    let current = pool_states (reported_pools storage) [] in
    let previous = get_node_storage_signature node_id st.rows in
    if is_stored current previous
    then st
    else push_changes w node_id (changes (recorded previous) current)
        (record st { rows = set_node_storage_signature node_id current st.rows })
