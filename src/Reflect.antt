-- ===== src/Reflect.antt =====
-- include/erl/reflect: the types that can be sent, their values, and the `serialize` and
-- `deserialize` of every specialisation of `Reflect`.
pub mod Words
pub mod Types
pub mod Target
pub mod Code
pub mod Encoding
pub mod Output
pub mod RoundTrip
pub mod Hybrid
mod Tests
