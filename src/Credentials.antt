-- ===== src/Credentials.antt =====
-- The credentials window: components/credentials.
pub mod Model
pub mod Controller
pub mod Main
mod Tests
