-- ===== src/Plasmoid.antt =====
-- components/plasmoid/src: the reader that a widget shows.
pub mod Unit
pub mod Reader
pub mod CardState
pub mod Handler
pub mod Identity
pub mod SignOutcome
pub mod Signing
pub mod Photo
pub mod Actions
mod Tests
