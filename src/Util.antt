-- ===== src/Util.antt =====
-- include/erl/_impl/util: hashes, operators and numbers as text.
pub mod Hash
pub mod Operators
pub mod Strings
mod Tests
