-- ===== src/Domains.antt =====
-- services/domain_service.js: the names that nodes claim under the fleet's zone, and the certificate
-- challenges for them.
pub mod Names
pub mod State
pub mod Reserved
pub mod Records
pub mod Claims
pub mod Challenges
pub mod Parsing
pub mod Ownership
pub mod Joining
pub mod Claiming
pub mod Events
pub mod Issuance
pub mod Tables
pub mod Tidy
pub mod Keeping
pub mod Steps
mod Tests
