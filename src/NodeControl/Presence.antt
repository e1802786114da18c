-- ===== src/NodeControl/Presence.antt =====
-- modules/node/index.js: what is held of a node when one of its sockets ends.
use virgo_fleet.Base.{ℕ, Bool, Option, none, List, lookup}
use virgo_fleet.NodeControl.State.{Updates, Progress, Job, Pool, Ups, Hub}
use virgo_fleet.NodeControl.Caches.{Caches, caches}

-- What is held of one node: its registered socket, and what it has reported.
pub record Holding : Type 0 where
  pub socket : Option ℕ
  pub updates : Option Updates
  pub update : Option Progress
  pub app_update_jobs : Option (List Job)
  pub storage : Option (Option (List Pool))
  pub ups : Option Ups
  pub capabilities : Option Bool
  pub on_fleet_zone : Option Bool

abbrev pub nothing_held : Holding
nothing_held = record {
  socket = none;
  updates = none;
  update = none;
  app_update_jobs = none;
  storage = none;
  ups = none;
  capabilities = none;
  on_fleet_zone = none;
}

unfoldable pub held_in : ℕ → Caches → Holding
held_in n k = record {
  socket = lookup n k.node_sockets;
  updates = lookup n k.updates;
  update = lookup n k.update;
  app_update_jobs = lookup n k.app_update_jobs;
  storage = lookup n k.storage;
  ups = lookup n k.ups;
  capabilities = lookup n k.capabilities;
  on_fleet_zone = lookup n k.on_fleet_zone;
}

abbrev pub held : ℕ → Hub → Holding
held n st = held_in n (caches st)
