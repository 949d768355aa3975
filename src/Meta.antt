-- ===== src/Meta.antt =====
-- include/erl/_impl/util/meta.hpp.
pub mod Info
pub mod Members
pub mod Packs
pub mod Sample
