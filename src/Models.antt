-- ===== src/Models.antt =====
-- The rows of the database, one module for the models of each app.
pub mod Accounts
pub mod Authentication
pub mod Security
pub mod Authorization
pub mod Audit
pub mod ApiKeys
pub mod Core
pub mod Files
pub mod Notifications
pub mod Webhooks
