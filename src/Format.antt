-- ===== src/Format.antt =====
-- include/erl/_impl/format/named.hpp, and the parser of include/erl/_impl/util/parser.hpp that it
-- stands on.
pub mod Scan
pub mod Outcome
pub mod Accessor
pub mod Fragments
pub mod Fields
pub mod Loop
pub mod Moves
pub mod Named
pub mod Plain
pub mod Whole
pub mod Tests
