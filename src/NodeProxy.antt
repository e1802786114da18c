-- ===== src/NodeProxy.antt =====
-- utils/node_proxy.js: browser connections to a node's namespaces, carried over the node's one control
-- socket as sessions and calls.
pub mod State
pub mod Handlers
pub mod Fairness
pub mod Others
pub mod Calls
pub mod Waiting
mod Tests
