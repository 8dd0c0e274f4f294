-- ===== src/Security.antt =====
-- The security app: the event log of the users, and the protection of the login.
pub mod Events
pub mod LoginProtection
pub mod KnownAccount
