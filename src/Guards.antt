-- ===== src/Guards.antt =====
-- guards/: what is checked of a checkout before an issue's lifecycle goes on.
pub mod Author
pub mod Branch
pub mod ClaimSync
pub mod Tests
