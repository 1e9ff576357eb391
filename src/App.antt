-- ===== src/App.antt =====
-- cmd/app: the connections that the program shares, and how it is put together and stopped.
pub mod Dependencies
pub mod Drivers
pub mod Web
pub mod Shutdown
