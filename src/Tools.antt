-- ===== src/Tools.antt =====
-- src/tools.rs: the namespace verbs and the health of datastores.
pub mod NamespaceSteps
pub mod Health
pub mod NamespaceDelete
