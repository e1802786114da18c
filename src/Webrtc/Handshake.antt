-- ===== src/Webrtc/Handshake.antt =====
-- src/utils/webrtc_signal.js: how the state of a session may change.
mod Bookkeeping
pub mod NodeMoves
pub mod ClientMoves
pub mod Steps
pub use Bookkeeping.*
