-- ===== src/Agent.antt =====
-- agent/v1: the control contract between the center and the Agent, a module for each file.
mod Tests
pub mod Validate
pub mod Register
pub mod Commands
pub mod Messages
pub mod Update
pub mod Events
pub mod Plugins
pub mod PluginState
pub mod Policies
pub mod PolicyStatus
pub mod PolicyOrder
pub mod Telemetry
