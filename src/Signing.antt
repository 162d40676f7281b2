-- ===== src/Signing.antt =====
-- shared/signing: which card signs, in which format, and the job that signs a file.
pub mod Format
pub mod Selection
pub mod Seams
pub mod Job
mod Tests
