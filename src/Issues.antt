-- ===== src/Issues.antt =====
-- testing/issues.py and testing/client.py: the in-memory issue server that clients are run
-- against, with the lifecycle of an issue. Rows are records, as `_store_issue` fills every key;
-- `branch`, `commit` and `dependency_state` may be missing. Messages are not modelled.
pub mod Row
pub mod Server
pub mod Listing
pub mod Claim
pub mod Orphans
mod Tests
