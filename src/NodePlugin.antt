-- ===== src/NodePlugin.antt =====
-- nodeplugin/v1/validate.go: the contract between the Agent and a node plugin, a child for each
-- group of calls. A message is a pointer in Go: `none` is nil.
mod Tests
pub mod Info
pub mod Configuration
pub mod Telemetry
pub mod Services
