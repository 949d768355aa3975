-- ===== src/Message.antt =====
-- include/erl/_impl/net/message: the buffers that messages are built in and the view that reads
-- them.
pub mod Memory
pub mod Hybrid
pub mod View
mod Tests
