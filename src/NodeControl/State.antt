-- ===== src/NodeControl/State.antt =====
-- modules/node/index.js, lines 26 to 38: the maps of the node module, the node rows that it reads and
-- writes, and what it does outside. Node ids, machine ids, user ids, sockets and names are numbers; a
-- machine id stands for a text without blanks at its ends.
use virgo_fleet.Base.{ℕ, Bool, List, [], ◌∷◌, Option, none, some, lookup}

-- What is reported by a node of its waiting updates: each side is a list once the node knows.
pub record Updates : Type 0 where
  pub system : Option (List (ℕ × ℕ))
  pub apps : Option (List ℕ)

-- An update as `#updateKeys` names it: a package at a version, or an app.
pub data UpdateKey : Type 0 where
  app_key : (name : ℕ) → UpdateKey
  system_key : (name version : ℕ) → UpdateKey

-- The stored text of the last update list; an older shape is not a list.
pub data StoredKeys : Type 0 where
  key_list : List UpdateKey → StoredKeys
  older_shape : StoredKeys

pub data Stage : Type 0 where
  download install : Stage

-- The progress that is shown of a system update.
pub data Progress : Type 0 where
  succeeded failed running : Progress
  running_at : Stage → (percent : ℕ) → Progress

pub data JobState : Type 0 where
  completed failed ongoing : JobState

pub record Job : Type 0 where
  pub id : ℕ
  pub state : JobState
  pub payload : ℕ

pub data PoolState : Type 0 where
  online degraded faulted rebuilding : PoolState

-- A pool's health and scan, in lower case; none where the report has none.
pub data Health : Type 0 where
  is_online is_degraded is_other : Health

pub record Scan : Type 0 where
  pub is_resilver : Bool
  pub is_finished : Bool

pub record Pool : Type 0 where
  pub is_pool : Bool
  pub name : ℕ
  pub scan : Option Scan
  pub health : Option Health

-- A UPS report: a text or missing value, or a reading whose capacity is a whole number of percents
-- and whether the rest is at least a half.
pub data Ups : Type 0 where
  no_object : (text : ℕ) → Ups
  reading : (error charge source charging : ℕ) → Option (ℕ × Bool) → Ups

pub record Change : Type 0 where
  pub pool : ℕ
  pub from : Option PoolState
  pub to : PoolState

-- A row of the nodes' table, in the columns that the module uses.
pub record Row : Type 0 where
  pub machine_id : Option ℕ
  pub peers : List ℕ
  pub update_signature : Option StoredKeys
  pub storage_signature : Option (List (ℕ × PoolState))

-- A socket of the namespace, as the broadcasts see it.
pub record Viewer : Type 0 where
  pub socket : ℕ
  pub is_user : Bool
  pub is_authenticated : Bool
  pub user_id : ℕ

pub data Effect : Type 0 where
  nodes_updated : List ℕ → Effect
  node_status : (socket node_id : ℕ) → Bool → Effect
  last_seen : (node_id : ℕ) → Effect
  connectivity : (node_id : ℕ) → Bool → Effect
  update_push : List ℕ → (node_id system_count apps_count : ℕ) → Effect
  storage_push : List ℕ → (node_id : ℕ) → List Change → Effect
  webrtc_closed : (node_id socket : ℕ) → Effect
  socket_clients_dropped : (socket : ℕ) → Effect
  node_clients_dropped : (node_id : ℕ) → Effect
  requests_failed : (node_id : ℕ) → Effect
  handlers_attached : (socket : ℕ) → Effect
  reprobed : (node_id : ℕ) → Effect
  unregister_asked : (socket : ℕ) → Effect
  socket_closed : (socket : ℕ) → Effect
  inventory_sent : (socket : ℕ) → Effect

-- The maps, the rows, and the effects so far, the newest first.
pub record Hub : Type 0 where
  pub node_sockets : List (ℕ × ℕ)
  pub updates : List (ℕ × Updates)
  pub update : List (ℕ × Progress)
  pub app_update_jobs : List (ℕ × List Job)
  pub storage : List (ℕ × Option (List Pool))
  pub ups : List (ℕ × Ups)
  pub capabilities : List (ℕ × Bool)
  pub on_fleet_zone : List (ℕ × Bool)
  pub peers : List (ℕ × List ℕ)
  pub machine_ids : List (ℕ × ℕ)
  pub node_ids : List (ℕ × ℕ)
  pub rows : List (ℕ × Row)
  pub log : List Effect

-- What the handlers read of the rest: the members of a node (none where the query fails), the
-- sockets of the namespace, and which sockets are connected.
pub record World : Type 0 where
  pub members_of : ℕ → Option (List ℕ)
  pub viewers : List Viewer
  pub is_connected : ℕ → Bool

abbrev pub emit : Effect → Hub → Hub
emit e st = record st { log = e ∷ st.log }

-- The maps of a new process over the rows of the database.
abbrev pub boot : List (ℕ × Row) → Hub
boot rows = record {
  node_sockets = [];
  updates = [];
  update = [];
  app_update_jobs = [];
  storage = [];
  ups = [];
  capabilities = [];
  on_fleet_zone = [];
  peers = [];
  machine_ids = [];
  node_ids = [];
  rows = rows;
  log = [];
}

-- `map.get(key) ?? []`
abbrev pub list_of {ℓ} : {A : Type ℓ} → ℕ → List (ℕ × List A) → List A
list_of k m = elim (lookup k m) [ none ↦ [] | some xs ↦ xs ]
