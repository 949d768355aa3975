-- ===== src/Logging.antt =====
-- The logging service: include/erl/_impl/log and src/logging.
pub mod Color
pub mod Threads
pub mod Service
pub mod Calls
pub mod History
pub mod Remote
pub mod Line
pub mod Terminal
mod Tests
