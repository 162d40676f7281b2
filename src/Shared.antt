-- ===== src/Shared.antt =====
-- What the components share: shared/agentclient.
pub mod Agent
pub mod ErrorText
pub mod CredentialText
pub mod Registry
pub mod IdentityRows
pub mod Samples
mod Tests
