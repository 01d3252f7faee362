-- ===== src/Conformance.antt =====
-- conformance and cmd: the loaders of contract files, the verification of plugin releases, and the
-- commands over them.
mod Tests
pub mod Files
pub mod Agent
pub mod Plugins
pub mod Fixtures
pub mod Release
pub mod ContractRelease
pub mod Command
