-- ===== src/Api.antt =====
-- The REST interface of apps/api: the views, which check the fields of a request, call one service
-- and wrap what it answers.
pub mod Registering
pub mod Closed
pub mod Responses
pub mod Auth
pub mod ApiKeys
pub mod Sessions
pub mod Accounts
pub mod Roles
pub mod Settings
pub mod Failures
