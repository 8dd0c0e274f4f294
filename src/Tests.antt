-- ===== src/Tests.antt =====
-- Runs at concrete inputs: a sample of the settings and of the library functions, and a run of the
-- properties on it.
pub mod Sample
pub mod Security
pub mod Authentication
pub mod Login
pub mod Webhooks
pub mod Accounts
pub mod ApiKeys
pub mod Core
pub mod Rules
pub mod Api
pub mod Views
