-- ===== src/Service.antt =====
-- internal/service: the application's operations on users and credentials.
pub mod Users
pub mod Credentials
