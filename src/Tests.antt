-- ===== src/Tests.antt =====
-- Uses of the theorems at concrete inputs.
pub mod Watching
pub mod Managers
pub mod Logs
pub mod Prestarting
pub mod Policies
pub mod Topics
pub mod Registering
pub mod Daemons
pub mod Overlapping
pub mod Watchers
pub mod Programs
