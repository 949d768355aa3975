-- ===== src/Queues.antt =====
-- include/erl/_impl/queue: the queues that messages travel through.
pub mod Fifo
pub mod Window
pub mod Spsc
pub mod Mpmc
pub mod Basic
pub mod Retry
mod Tests
