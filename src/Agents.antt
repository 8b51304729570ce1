-- ===== src/Agents.antt =====
-- agents/: what agents answer, and what is accepted of it.
pub mod Json
pub mod Router
pub mod Review
mod Tests
