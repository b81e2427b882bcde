-- ===== src/TaskManager.antt =====
-- internal/taskmanager/taskmanager.go: the lifecycle of asynchronous tasks.
pub mod Context
pub mod Model
pub mod Events
pub mod Cases
pub mod Commands
pub mod Count
pub mod Lifecycle
pub mod Settled
pub mod Races
pub mod Admission
pub mod Stored
pub mod Retention
pub mod Tests
