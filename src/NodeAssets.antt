-- ===== src/NodeAssets.antt =====
-- src/utils/node_assets.js: HTTP requests for a node's files, carried over its control socket.
pub mod Requests
pub mod Transfer
pub mod Buffering
pub mod Uniqueness
mod Tests
