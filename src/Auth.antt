-- ===== src/Auth.antt =====
-- internal/auth/auth.go: the API token, in memory and on disk.
pub mod Model
pub mod Rotation
pub mod Verify
pub mod History
pub mod Schedule
pub mod Tests
