-- ===== src/NodeControl/Caches.antt =====
-- modules/node/index.js: what the module holds of a node's reports, and the presence of a node, which
-- leaves all of it alone.
use virgo_fleet.Base.{ℕ, Bool, ◌&&◌, List, [], ◌∷◌, Option, ◌≡◌, if_keeps, Option_keeps, has}
use virgo_fleet.NodeControl.State.{
  Updates, Progress, Job, Pool, Ups, Viewer, Hub, World, emit, last_seen, connectivity,
}
use virgo_fleet.NodeControl.Events.{tell_viewers, handle_node_presence}

-- The registered sockets, and the maps that are cleared when a node's socket is gone.
pub record Caches : Type 0 where
  pub node_sockets : List (ℕ × ℕ)
  pub updates : List (ℕ × Updates)
  pub update : List (ℕ × Progress)
  pub app_update_jobs : List (ℕ × List Job)
  pub storage : List (ℕ × Option (List Pool))
  pub ups : List (ℕ × Ups)
  pub capabilities : List (ℕ × Bool)
  pub on_fleet_zone : List (ℕ × Bool)

abbrev pub caches : Hub → Caches
caches st = record {
  node_sockets = st.node_sockets;
  updates = st.updates;
  update = st.update;
  app_update_jobs = st.app_update_jobs;
  storage = st.storage;
  ups = st.ups;
  capabilities = st.capabilities;
  on_fleet_zone = st.on_fleet_zone;
}

-- The hub has the caches `k`.
abbrev pub Holds : Caches → Hub → Type 0
Holds k st = caches st ≡ k

tell_viewers-Holds :
    (node_id : ℕ) (online : Bool) (ids : List ℕ) (vs : List Viewer) (k : Caches) (st : Hub)
    → Holds k st
    → Holds k (tell_viewers node_id online ids vs st)
unfolding tell_viewers
tell_viewers-Holds node_id online ids [] k st h = h
tell_viewers-Holds node_id online ids (v ∷ vs) k st h =
    tell_viewers-Holds node_id online ids vs k _ (
      if_keeps (Holds k) (v.is_user && v.is_authenticated && has ids v.user_id) _ _ (λ _. h)
        (λ _. h))

pub presence-Holds :
    (w : World) (node_id : ℕ) (online : Bool) (k : Caches) (st : Hub)
    → Holds k st
    → Holds k (handle_node_presence w node_id online st)
unfolding handle_node_presence
presence-Holds w node_id online k st h =
    Option_keeps (Holds k) (w.members_of node_id) _ _ (λ _. h)
      λ ids _.
        tell_viewers-Holds node_id online ids w.viewers k
          (emit (connectivity node_id online) (emit (last_seen node_id) st)) h
