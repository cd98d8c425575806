-- ===== src/Client.antt =====
-- src/client.rs: the typed client of the PBS REST API.
pub mod Token
pub mod Encode
pub mod Request
