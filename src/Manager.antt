-- ===== src/Manager.antt =====
-- launcher/manager_model.h and launcher/manager_model.cpp.
pub mod Elevated
pub mod Paths
pub mod Manifest
pub mod Integrity
pub mod Signatures
pub mod Lock
pub mod Redact
pub mod Environment
