-- ===== src/Main.antt =====
-- main.go: how the agent starts and stops.
pub mod Program
pub mod Startup
pub mod Service
pub mod Checking
pub mod FirstStart
pub mod Tests
