-- ===== src/Access.antt =====
-- src/services/data_service.js, the part that decides who reaches which node: the tables of
-- users, groups and nodes, the rows that join them, and the socket handlers that change those rows
-- (src/modules/node/proxy.js, src/modules/group/).
pub mod Store
pub mod Queries
pub mod Changes
pub mod Handlers
pub mod NodeEvents
pub mod GroupEvents
pub mod Events
pub mod Outcomes
pub mod Reach
pub mod Sharing
pub mod Registration
pub mod Ownership
pub mod Tables
pub mod Tests
pub mod Losses
pub mod Gains
pub mod Enforcement
