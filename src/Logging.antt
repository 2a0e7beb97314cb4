-- ===== src/Logging.antt =====
-- src/logging.cpp and src/logging.hpp: the diagnostics.
pub mod State
pub mod Report
pub mod Scopes
pub mod Restore
pub mod Capture
mod Examples
