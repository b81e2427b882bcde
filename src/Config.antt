-- ===== src/Config.antt =====
-- internal/config/config.go: the configuration, its defaults, the environment overrides and Load.
pub mod Types
pub mod Load
pub mod Valid
pub mod Overrides
pub mod Listen
pub mod Tests
