-- ===== src/CenterPlugin.antt =====
-- centerplugin/v1: the contract between the center and a center plugin, a child for each group of
-- calls. A message is a pointer in Go: `none` is nil.
mod Tests
pub mod Text
pub mod Info
pub mod Ui
pub mod Configuration
pub mod Services
pub mod Subscription
pub mod Notification
pub mod Publish
pub mod Consume
