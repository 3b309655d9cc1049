-- ===== src/ClientControl.antt =====
-- pkg/clientcontrol: the host that runs sessions for a client program, and what it tells of them.
pub mod Types
pub mod Host
pub mod Execution
pub mod Artifacts
pub mod VpsCatalogs
mod Examples
