-- ===== src/Negotiation.antt =====
-- The negotiation of a shared contract between a provider and a consumer project (negotiation/).
pub mod Model
pub mod Thread
pub mod Store
pub mod Engine
pub mod Prompts
pub mod Finalize
mod Tests
