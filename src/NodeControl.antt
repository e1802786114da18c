-- ===== src/NodeControl.antt =====
-- modules/node/index.js: the control sockets of the nodes, what the nodes report over them, and the
-- notifications that follow.
pub mod State
pub mod Peers
pub mod Reports
pub mod Notifications
pub mod Events
pub mod Inverse
pub mod Untouched
pub mod Persistence
pub mod Steps
pub mod Restart
pub mod Restoring
pub mod Caches
pub mod Presence
pub mod Silence
pub mod Reach
pub mod Transitions
mod Tests
