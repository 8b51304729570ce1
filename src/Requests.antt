-- ===== src/Requests.antt =====
-- commands/request/: requests that a project manager's checkout routes to other projects as proposals.
pub mod State
pub mod Found
pub mod Clarify
pub mod Build
pub mod Routing
pub mod Decide
pub mod Answer
pub mod Answered
pub mod Prepared
pub mod Delivers
pub mod Tests
