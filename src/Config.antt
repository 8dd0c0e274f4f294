-- ===== src/Config.antt =====
-- config/settings: the checks that stop a server with an unsafe or incomplete configuration.
pub mod Production
pub mod Database
