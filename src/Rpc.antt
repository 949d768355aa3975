-- ===== src/Rpc.antt =====
-- Remote calls: include/erl/rpc, include/erl/_impl/rpc and include/erl/_impl/net/{queue,service}.hpp.
pub mod Outcome
pub mod Message
pub mod Service
pub mod Messages
pub mod Dispatch
pub mod Protocol
pub mod Channel
pub mod Hybrid
pub mod Policy
pub mod Policies
pub mod Agreement
mod Tests
