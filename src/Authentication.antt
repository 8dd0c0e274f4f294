-- ===== src/Authentication.antt =====
-- The authentication app: tokens, sessions, two-factor codes and the login.
pub mod Tokens
pub mod Sessions
pub mod TwoFactor
pub mod Accounts
pub mod Login
