-- ===== src/Launcher.antt =====
-- The launcher of launcher/.
pub mod Quote
pub mod Architecture
pub mod Paths
pub mod Modules
pub mod Debug
pub mod Launch
