-- ===== src/Encoding.antt =====
-- encoding/: the places of characters in a text, excluded paths, hits, and the lines that a diff adds.
pub mod Lines
pub mod Bisect
pub mod Offsets
pub mod Paths
pub mod Matched
pub mod Window
pub mod Maximal
pub mod Once
pub mod Scan
pub mod Scope
pub mod Added
pub mod Hunks
pub mod Diff
pub mod Tests
