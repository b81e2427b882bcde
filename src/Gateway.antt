-- ===== src/Gateway.antt =====
-- internal/gateway/gateway.go: the HTTP handlers and the checks in front of them.
pub mod Types
pub mod Handlers
pub mod Upload
pub mod Routes
pub mod Guard
pub mod Answers
pub mod Commands
pub mod Service
pub mod Steady
pub mod Disk
pub mod Names
pub mod Targets
pub mod Inside
pub mod Tests
