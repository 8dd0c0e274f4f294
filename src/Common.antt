-- ===== src/Common.antt =====
-- The shared infrastructure of common/.
pub mod Logging
pub mod Crypto
pub mod Idempotency
pub mod Network
pub mod Values
pub mod Errors
pub mod Events
pub mod Email
