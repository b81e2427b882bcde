-- ===== src/Executor.antt =====
-- internal/executor: command filters, working directories, time limits and results.
pub mod Types
pub mod Filter
pub mod Policy
pub mod WorkDir
pub mod Confine
pub mod Run
pub mod Limits
pub mod Processes
pub mod SysUnix
pub mod SysWindows
pub mod Ids
pub mod Groups
pub mod Trees
pub mod Tests
