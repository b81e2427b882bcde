-- ===== src/Mq.antt =====
-- internal/mq: the senders that replicate the log.
pub mod Sender
pub mod Spool
pub mod Names
pub mod Delivery
pub mod Topics
pub mod Mailbox
pub mod Remote
pub mod Tests
