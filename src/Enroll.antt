-- ===== src/Enroll.antt =====
-- src/enroll.rs: the identity of a backup client host, the drift of the server from what the host
-- should have, and the steps that close it.
pub mod Identity
pub mod State
pub mod Diff
pub mod NoDrift
pub mod Revoke
pub mod Stamp
pub mod Desired
pub mod Run
pub mod LeastPrivilege
