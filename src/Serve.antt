-- ===== src/Serve.antt =====
-- The serve command: commands/serve/.
pub mod Loop
mod Tests
