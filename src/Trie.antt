-- ===== src/Trie.antt =====
-- include/erl/_impl/util/trie.hpp.
pub mod Tree
pub mod Lookup
pub mod Entries
pub mod Build
pub mod Words
pub mod Sound
pub mod Order
pub mod Live
pub mod Total
pub mod Back
pub mod Complete
pub mod Exact
pub mod Tests
