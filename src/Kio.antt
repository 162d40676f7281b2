-- ===== src/Kio.antt =====
-- The `card:/` KIO worker: components/kio.
pub mod Source
pub mod Tree
pub mod Render
pub mod Folders
pub mod Worker
pub mod Get
mod Tests
pub mod AgentSource
