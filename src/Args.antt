-- ===== src/Args.antt =====
-- include/erl/args and include/erl/_impl/config/args.hpp: command lines read into a settings
-- object by the specification that its members make.
pub mod Outcome
pub mod Parser
pub mod Render
pub mod Lookup
pub mod Lines
pub mod Refused
pub mod Make
pub mod Made
pub mod Progress
pub mod Required
pub mod Values
pub mod Construct
pub mod Constructed
pub mod Handled
mod Tests
