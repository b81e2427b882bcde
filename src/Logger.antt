-- ===== src/Logger.antt =====
-- internal/logentry and internal/logger: the signed, chained log, and its verification.
pub mod Entry
pub mod Handler
pub mod Verifier
pub mod Sealing
pub mod Steps
pub mod Chain
pub mod Soundness
pub mod Failures
pub mod Keys
pub mod Pair
pub mod Sparing
pub mod Signing
pub mod Generated
pub mod Numbers
pub mod Lost
pub mod Lifecycle
pub mod Replica
pub mod Opening
pub mod Interleaved
pub mod Tests
pub mod KeyTests
