-- ===== src/Expect.antt =====
-- include/erl/_impl/expect.hpp: expressions over a function's arguments that are checked at run
-- time and printed when they fail.
pub mod Expr
pub mod Evaluate
pub mod Verbose
pub mod Chain
mod Tests
