-- ===== src/Core.antt =====
-- core.py
pub mod Token
pub mod WorkerKey
pub mod Address
mod Tests
