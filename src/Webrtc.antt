-- ===== src/Webrtc.antt =====
-- utils/webrtc_signal.js: the relay of WebRTC signaling between browsers and nodes.
pub mod Index
pub mod State
pub mod Sessions
pub mod NodeSide
pub mod ClientSide
pub mod Teardown
pub mod Events
pub mod Consistency
pub mod Lookups
pub mod Revocation
pub mod Handshake
pub mod Requests
mod Tests
